-- ===== src/Resources/Names.antt =====
-- The names and the paths of projects.
use mathlib.Core.Option.{get_or}
use claude_agent_api.Common.{
  ◌≢◌, String, ◌≡◌, refl, Bool, true, false, ◌||◌, Option, none, some, List, [], ◌∷◌, map, ◌==◌,
  arith, eq_refl, eq_iff, ap, inl, inr, Bool-cases, Option-cases, ◌∙◌, sym,
}
use claude_agent_api.Exec.{Outcome, ok, ◌>>=◌}
use claude_agent_api.Json.{Dict, get}
use claude_agent_api.Payload.{payload_laws}
use claude_agent_api.Interfaces.{Cache}
use claude_agent_api.Runtime.{Runtime, to_str}
use claude_agent_api.Sessions.Model.{truthy}
use claude_agent_api.Agent.Handlers.{contains}
use claude_agent_api.Resources.Index.{list_all, text_field}
use claude_agent_api.Resources.Shelves.{
  ShelfLaws, gather, list_all_lem, add_record_lem, get_one_lem,
}
use claude_agent_api.Resources.Projects.{
  ProjectRecord, project_key, project_payload, parse_project, is_taken, new_project, list_projects,
  create_project, get_project,
}

parse_project-project_payload :
    (rt : Runtime) (id : String) (p : ProjectRecord) → parse_project rt id (project_payload p) ≡ p
unfolding parse_project project_payload text_field to_str get
parse_project-project_payload rt id p = simp (payload_laws) refl

-- A project has the name or the path.
abbrev pub matches : String → String → ProjectRecord → Bool
matches name path p = p.name == name || p.path == path

-- A project that a listing reads is seen by the test for taken names.
is_taken-gather :
    (read : String → Dict → ProjectRecord) (at : String → Option Dict) (ids : List String)
    (id name path : String) (d : Dict)
    → contains ids id ≡ true
    → at (project_key id) ≡ some d
    → matches name path (read id d) ≡ true
    → is_taken name path (gather read ids (map at (map project_key ids))) ≡ true
unfolding is_taken
is_taken-gather read at [] id name path d h e m = cc
is_taken-gather read at (x ∷ ids) id name path d h e m = elim (Bool-cases (x == id)) [
  | inl same ↦
      let there : at (project_key x) ≡ some d =
        ap (λ s. at (project_key s)) ((eq_iff x id).0 same) ∙ e in
      let hit : matches name path (read x d) ≡ true =
        ap (λ s. matches name path (read s d)) ((eq_iff x id).0 same) ∙ m in
      rw (there, hit) refl
  | inr apart ↦
      let rest = is_taken-gather read at ids id name path d (ground (arith, h, apart)) e m in
      elim (Option-cases (at (project_key x))) [
        | inl none_there ↦ rw (none_there) rest
        | inr (f, there) ↦ rw (there, rest) (ground arith)
      ]
]

project_in : ProjectRecord → Outcome (Option ProjectRecord) → ProjectRecord
project_in q (ok (some p)) = p
project_in q o = q

ok_some-inj : {p q : ProjectRecord} → ok (some p) ≡ ok (some q) → p ≡ q
unfolding project_in
ok_some-inj {p} e = ap (project_in p) e

none-ne-some :
    {p : ProjectRecord} → ◌≢◌ {A = Outcome (Option ProjectRecord)} (ok none) (ok (some p))
none-ne-some e = cc

module _ {W : Type 0} (rt : Runtime) (cache : Cache W) {json_at : W → String → Option Dict}
    {members : W → List String} (laws : ShelfLaws cache json_at "projects:index" members) where
  -- The projects that a listing gives.
  abbrev listed_in : W → List ProjectRecord
  listed_in w =
      gather (parse_project rt) (members w) (map (json_at w) (map project_key (members w)))

  abbrev after_listing : W → W
  after_listing w = (list_projects rt cache w).1

  list_projects_lem :
      (w : W)
      → (list_projects rt cache w ≡ (ok (listed_in w), after_listing w))
        × ((j : String) → json_at (after_listing w) j ≡ json_at w j)
  unfolding list_projects
  list_projects_lem w =
      let (listed, kept) =
        list_all_lem cache "projects:index" laws project_key (parse_project rt) w in
      (ap (λ r. (r, after_listing w)) listed, kept)

  -- A creation refuses what is taken, and changes no payload then.
  create_project-refused :
      (fresh now name : String) (path : Option String) (metadata : Option Dict) (w : W)
      → is_taken name (get_or (truthy path) name) (listed_in w) ≡ true
      → create_project rt cache fresh now name path metadata w ≡ (ok none, after_listing w)
  unfolding create_project ◌>>=◌ is_taken list_projects list_all
  create_project-refused fresh now name path metadata w taken =
      rw ((list_projects_lem w).0, taken) refl

  create_project-stored :
      (fresh now name : String) (path : Option String) (metadata : Option Dict) (w : W)
      → is_taken name (get_or (truthy path) name) (listed_in w) ≡ false
      → let p = new_project fresh now name (get_or (truthy path) name) metadata in
        let (r, w') = create_project rt cache fresh now name path metadata w in
        (r ≡ ok (some p))
        × (contains (members w') fresh ≡ true)
        × (json_at w' (project_key fresh) ≡ some (project_payload p))
  unfolding create_project ◌>>=◌ is_taken truthy project_payload list_projects list_all
  create_project-stored fresh now name path metadata w free =
      let p = new_project fresh now name (get_or (truthy path) name) metadata in
      let (done, listed, json) =
        add_record_lem cache "projects:index" laws project_key (parse_project rt) fresh
          (project_payload p) (after_listing w) in
      rw ((list_projects_lem w).0, free, done)
        (refl, listed, json (project_key fresh) ∙ rw (eq_refl (project_key fresh)) refl)

  -- A project that a creation gave, in a cache that answers, is read by its id right after, and its
  -- record and its entry in the index are there. In every world in which they are still there,
  -- unchanged, its name and its path are taken: a creation with the same name or the same path,
  -- where a missing path is the name, answers None and changes no payload.
  pub create_project-once :
      (fresh now name : String) (path : Option String) (metadata : Option Dict)
      (fresh2 now2 name2 : String) (path2 : Option String) (metadata2 : Option Dict)
      (p : ProjectRecord) (w later : W)
      → (create_project rt cache fresh now name path metadata w).0 ≡ ok (some p)
      → contains (members later) fresh ≡ true
      → json_at later (project_key fresh) ≡ some (project_payload p)
      → matches name2 (get_or (truthy path2) name2) p ≡ true
      → let w1 = (create_project rt cache fresh now name path metadata w).1 in
        let (r, w2) = create_project rt cache fresh2 now2 name2 path2 metadata2 later in
        (get_project rt cache fresh w1 ≡ (ok (some p), w1))
        × (contains (members w1) fresh ≡ true)
        × (json_at w1 (project_key fresh) ≡ some (project_payload p))
        × (r ≡ ok none)
        × ((j : String) → json_at w2 j ≡ json_at later j)
  unfolding get_project
  create_project-once fresh now name path metadata fresh2 now2 name2 path2 metadata2 p w later made
        entered kept same =
      elim (Bool-cases (is_taken name (get_or (truthy path) name) (listed_in w))) [
        | inl taken ↦
            let refused = create_project-refused fresh now name path metadata w taken in
            absurd (none-ne-some (sym (ap (λ x. x.0) refused) ∙ made))
        | inr free ↦
            let (done, listed, stored) =
              create_project-stored fresh now name path metadata w free in
            let w1 = (create_project rt cache fresh now name path metadata w).1 in
            let same_p = ok_some-inj (sym made ∙ done) in
            let stored_p : json_at w1 (project_key fresh) ≡ some (project_payload p) =
              stored ∙ ap (λ q. some (project_payload q)) (sym same_p) in
            let path_2 = get_or (truthy path2) name2 in
            let taken =
              is_taken-gather (parse_project rt) (json_at later) (members later) fresh name2 path_2
                (project_payload p) entered kept
                (rw (parse_project-project_payload rt fresh p) same) in
            let refused = create_project-refused fresh2 now2 name2 path2 metadata2 later taken in
            (
              get_one_lem cache "projects:index" laws project_key (parse_project rt) fresh w1
                  ∙ rw (stored_p, parse_project-project_payload rt fresh p) refl,
              listed,
              stored_p,
              ap (λ x. x.0) refused,
              rw (refused) (list_projects_lem later).1,
            )
      ]
