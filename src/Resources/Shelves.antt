-- ===== src/Resources/Shelves.antt =====
-- What is relied on of the cache under a shelf of records, and what a listing gives.
use claude_agent_api.Common.{
  String, ◌≡◌, refl, Bool, true, Option, none, some, List, [], ◌∷◌, map, ◌==◌, if◌then◌else◌, ap,
  Option-cases, inl, inr, ◌∙◌,
}
use claude_agent_api.Exec.{Outcome, ok, ◌>>=◌}
use claude_agent_api.Json.{Dict}
use claude_agent_api.Interfaces.{Cache}
use claude_agent_api.Agent.Handlers.{contains}
use claude_agent_api.Resources.Index.{
  found_all, Shelf, collect, list_all, put_record, add_record, remove_record, get_one,
}

-- The payloads of a world and the members of the one set; the two do not touch each other.
pub record ShelfLaws {W : Type 0} (c : Cache W) (json_at : W → String → Option Dict)
    (index_key : String) (members : W → List String) : Type 0 where
  pub set_members_lem : (w : W) → c.set_members index_key w ≡ (ok (members w), w)
  pub get_json_lem : (k : String) (w : W) → c.get_json k w ≡ (ok (json_at w k), w)
  pub get_many_lem :
      (ks : List String) (w : W) → c.get_many_json ks w ≡ (ok (map (json_at w) ks), w)
  pub set_json_ok : (k : String) (d : Dict) (w : W) → (c.set_json k d none w).0 ≡ ok true
  pub json-set_json :
      (k : String) (d : Dict) (w : W) (j : String)
      → json_at (c.set_json k d none w).1 j ≡ (if k == j then some d else json_at w j)
  pub add_ok : (v : String) (w : W) → (b : Bool) × ((c.add_to_set index_key v w).0 ≡ ok b)
  pub json-add :
      (v : String) (w : W) (j : String) → json_at (c.add_to_set index_key v w).1 j ≡ json_at w j
  pub contains-add :
      (v : String) (w : W) → contains (members (c.add_to_set index_key v w).1) v ≡ true
  pub remove_ok : (v : String) (w : W) → (b : Bool) × ((c.remove_from_set index_key v w).0 ≡ ok b)
  pub json-remove :
      (v : String) (w : W) (j : String)
      → json_at (c.remove_from_set index_key v w).1 j ≡ json_at w j
  pub delete_ok : (k : String) (w : W) → (b : Bool) × ((c.delete k w).0 ≡ ok b)
  pub json-delete :
      (k : String) (w : W) (j : String)
      → json_at (c.delete k w).1 j ≡ (if k == j then none else json_at w j)

module _ {W R : Type 0} (c : Cache W) (index_key : String) (key : String → String)
    (read : String → Dict → R) where
  -- A shelf whose records can always be read.
  abbrev pub readable : Shelf W R
  readable = record { cache = c; index_key = index_key; key = key; parse = λ id d. ok (read id d) }

-- The records that are there, in the order of their ids.
abbrev pub gather : {R : Type 0} → (String → Dict → R) → List String → List (Option Dict) → List R
gather read [] raws = []
gather read (id ∷ ids) [] = []
gather read (id ∷ ids) (none ∷ raws) = gather read ids raws
gather read (id ∷ ids) (some d ∷ raws) = read id d ∷ gather read ids raws

module _ {W R : Type 0} (c : Cache W) {json_at : W → String → Option Dict} (index_key : String)
    {members : W → List String} (laws : ShelfLaws c json_at index_key members)
    (key : String → String) (read : String → Dict → R) where
  abbrev shelf : Shelf W R
  shelf = readable c index_key key read

  -- A listing changes no payload.
  record Gathered (ids : List String) (raws : List (Option Dict)) (w : W) (r : Outcome (List R))
      (w' : W) : Type 0 where
    pub result : r ≡ ok (gather read ids raws)
    pub kept : (j : String) → json_at w' j ≡ json_at w j

  collect_lem :
      (ids : List String) (f : String → Option Dict) (w : W)
      → let raws = map f (map key ids) in
        let (r, w') = collect shelf ids raws w in Gathered ids raws w r w'
  unfolding collect ◌>>=◌
  collect_lem [] f w = record { result = refl; kept = λ j. refl }
  collect_lem (id ∷ ids) f w = elim (Option-cases (f (key id))) [
    | inl e ↦
        let (b, removed) = laws.remove_ok id w in
        let w1 = (c.remove_from_set index_key id w).1 in
        let rest = collect_lem ids f w1 in
        rw (e, removed)
          (record { result = rest.result; kept = λ j. rest.kept j ∙ laws.json-remove id w j })
    | inr (d, e) ↦
        let rest = collect_lem ids f w in
        rw (e, rest.result) (record { result = refl; kept = rest.kept })
  ]

  found_lem :
      (ids : List String) (w : W)
      → let (r, w') = found_all shelf ids w in
        (r ≡ ok (gather read ids (map (json_at w) (map key ids))))
        × ((j : String) → json_at w' j ≡ json_at w j)
  unfolding found_all ◌>>=◌
  found_lem [] w = (refl, λ j. refl)
  found_lem (id ∷ ids) w =
      let all = collect_lem (id ∷ ids) (json_at w) w in
      rw (laws.get_many_lem (map key (id ∷ ids)) w) (all.result, all.kept)

  -- A listing gives the records of the set's members that are there.
  pub list_all_lem :
      (w : W)
      → let (r, w') = list_all shelf w in
        (r ≡ ok (gather read (members w) (map (json_at w) (map key (members w)))))
        × ((j : String) → json_at w' j ≡ json_at w j)
  unfolding list_all ◌>>=◌
  list_all_lem w = rw (laws.set_members_lem w) (found_lem (members w) w)

  -- A new record is among the members, and nothing else changes.
  pub add_record_lem :
      (id : String) (d : Dict) (w : W)
      → let (r, w') = add_record shelf id d w in
        (r ≡ ok tt)
        × (contains (members w') id ≡ true)
        × ((j : String) → json_at w' j ≡ (if key id == j then some d else json_at w j))
  unfolding add_record put_record ◌>>=◌
  add_record_lem id d w =
      let w1 = (c.set_json (key id) d none w).1 in
      let (b, added) = laws.add_ok id w1 in
      rw (laws.set_json_ok (key id) d w, added)
        (
          refl,
          laws.contains-add id w1,
          λ j. laws.json-add id w1 j ∙ laws.json-set_json (key id) d w j,
        )

  pub get_one_lem :
      (id : String) (w : W)
      → get_one shelf id w
        ≡ (ok (elim (json_at w (key id)) [ none ↦ none | some d ↦ some (read id d) ]), w)
  unfolding get_one ◌>>=◌
  get_one_lem id w = elim (Option-cases (json_at w (key id))) [
    | inl e ↦ rw (laws.get_json_lem (key id) w, e) refl
    | inr (d, e) ↦ rw (laws.get_json_lem (key id) w, e) refl
  ]

  pub remove_record_lem :
      (id : String) (w : W)
      → let (r, w') = remove_record shelf id w in
        ((b : Bool) × (r ≡ ok b))
        × ((j : String) → json_at w' j ≡ (if key id == j then none else json_at w j))
  unfolding remove_record ◌>>=◌
  remove_record_lem id w =
      let w1 = (c.remove_from_set index_key id w).1 in
      let (b, removed) = laws.remove_ok id w in
      rw (removed) (
        laws.delete_ok (key id) w1,
        λ j.
            laws.json-delete (key id) w1 j
            ∙ ap (λ o. if key id == j then none else o) (laws.json-remove id w j),
      )
