-- ===== src/Assistants/Stored.antt =====
-- The operations over a cache and a database that answer: what is read after a creation, and what
-- a deletion does for a request that may not see the assistant.
use claude_agent_api.Common.{
  String, ℕ, ◌≡◌, refl, Bool, true, Option, none, some, arith, eq_refl, Option-cases, inl, inr,
}
use claude_agent_api.Exec.{ok, raise, ◌>>=◌, ◌>>=?◌}
use claude_agent_api.Json.{Json, Dict, field}
use claude_agent_api.Interfaces.{Cache}
use claude_agent_api.Runtime.{Runtime, RuntimeLaws}
use claude_agent_api.Stores.{JsonLaws, IndexLaws}
use claude_agent_api.Sessions.Model.{truthy}
use claude_agent_api.Assistants.Model.{
  Assistant, AssistantRow, AssistantFields, AssistantRepository, assistant_payload,
  map_assistant_row,
}
use claude_agent_api.Assistants.Service.{
  AssistantService, cache_key, owner_index_key, assistant_not_found, enforce_owner, new_assistant,
  cache_assistant, read_assistant, get_cached_assistant, write_to_db, create_assistant, found_in_db,
  get_from_db, check_cached, get_assistant, delete_row, drop_cached, delete_assistant,
}
use claude_agent_api.Assistants.RoundTrip.{
  FloatLaws, kept, parse_cached_assistant-assistant_payload,
}
use claude_agent_api.Assistants.Ownership.{IsVisible, enforce_owner_cases}

assistant_payload-ne-end :
    (rt : Runtime) (a : Assistant)
    → (k : String) × (v : Json) × (d : Dict) × (assistant_payload rt a ≡ field k v d)
unfolding assistant_payload
assistant_payload-ne-end rt a = (_, _, _, refl)

module _ {W : Type 0} (rt : Runtime) (svc : AssistantService W) (c : Cache W)
    {json_at : W → String → Option Dict} {has_key : W → String → Bool}
    (laws : JsonLaws c json_at svc.ttl has_key) (index : IndexLaws c json_at svc.ttl)
    (times : RuntimeLaws rt) (floats : FloatLaws rt) where
  abbrev pub cached : AssistantService W
  cached = record svc { cache = some c }

  get_cached_of_payload :
      (a : Assistant) (w : W)
      → json_at w (cache_key a.id) ≡ some (assistant_payload rt a)
      → get_cached_assistant rt cached a.id w ≡ (ok (some (kept a)), w)
  unfolding get_cached_assistant read_assistant ◌>>=◌
  get_cached_of_payload a w h = ground (
    arith,
    laws.get_json_lem (cache_key a.id) w,
    assistant_payload-ne-end rt a,
    parse_cached_assistant-assistant_payload rt times floats a,
  )

  get_assistant_of_payload :
      (a : Assistant) (k : Option String) (w : W)
      → json_at w (cache_key a.id) ≡ some (assistant_payload rt a)
      → get_assistant rt cached a.id k w ≡ ((enforce_owner rt (kept a) k >>=? λ b. ok (some b)), w)
  unfolding get_assistant check_cached ◌>>=◌
  get_assistant_of_payload a k w h = rw (get_cached_of_payload a w h) (ground arith)

  cache_assistant-json :
      (a : Assistant) (w : W)
      → ((cache_assistant rt cached a w).0 ≡ ok tt)
        × (json_at (cache_assistant rt cached a w).1 (cache_key a.id)
            ≡ some (assistant_payload rt a))
  unfolding cache_assistant ◌>>=◌
  cache_assistant-json a w =
      let k = cache_key a.id in
      let d = assistant_payload rt a in
      let v = (c.set_json k d (some svc.ttl) w).1 in
      elim (Option-cases (truthy a.owner_api_key_hash)) [
        | inl e ↦ ground (arith, laws.set_json_ok k d w, laws.json-set_json k d w k, eq_refl k)
        | inr (owner, e) ↦ ground (
          arith,
          laws.set_json_ok k d w,
          laws.json-set_json k d w k,
          eq_refl k,
          index.add_to_set_ok (owner_index_key owner) a.id v,
          index.json-add_to_set (owner_index_key owner) a.id v k,
        )
      ]

  create_assistant-ok :
      (id : String) (now : ℕ) (model : String) (fields : AssistantFields) (owner : Option String)
      (w w1 : W)
      → let a = new_assistant rt id now model fields owner in
        write_to_db rt cached id model
            (record fields { tools = some a.tools; metadata = some a.metadata })
            owner
            w
          ≡ (ok tt, w1)
        → create_assistant rt cached id now model fields owner w
          ≡ (ok a, (cache_assistant rt cached a w1).1)
  unfolding create_assistant ◌>>=◌
  create_assistant-ok id now model fields owner w w1 row =
      rw row
        (ground (arith, (cache_assistant-json (new_assistant rt id now model fields owner) w1).0))

  -- After an assistant was created, through a database that took its row and a cache that answers,
  -- a request for it is answered from the cache: with the assistant as it was created, but for None
  -- in place of its empty texts and of a temperature or top_p of zero, if the owner's check lets
  -- the request see it, and with the check's exception if not.
  pub get_assistant-create_assistant :
      (id : String) (now : ℕ) (model : String) (fields : AssistantFields) (owner k : Option String)
      (w w1 : W)
      → let a = new_assistant rt id now model fields owner in
        write_to_db rt cached id model
            (record fields { tools = some a.tools; metadata = some a.metadata })
            owner
            w
          ≡ (ok tt, w1)
        → let (r, w2) = create_assistant rt cached id now model fields owner w in
          (r ≡ ok a)
          × (get_assistant rt cached a.id k w2
              ≡ ((enforce_owner rt (kept a) k >>=? λ b. ok (some b)), w2))
  get_assistant-create_assistant id now model fields owner k w w1 row =
      let a = new_assistant rt id now model fields owner in
      rw (create_assistant-ok id now model fields owner w w1 row)
        (refl, get_assistant_of_payload a k _ (cache_assistant-json a w1).1)

module _ {W : Type 0} (rt : Runtime) (svc : AssistantService W) (c : Cache W)
    (repo : AssistantRepository W) {json_at : W → String → Option Dict}
    {has_key : W → String → Bool} (laws : JsonLaws c json_at svc.ttl has_key) where
  abbrev pub both : AssistantService W
  both = record svc { cache = some c; db_repo = some repo }

  -- A request that may not see an assistant is refused its deletion if the cache holds the
  -- assistant: `AssistantNotFoundError` is raised, and nothing is changed. What the request may see
  -- is decided on the assistant with None for its empty texts.
  pub delete_assistant-refused :
      IndexLaws c json_at svc.ttl
      → RuntimeLaws rt
      → FloatLaws rt
      → (a : Assistant) (k : Option String) (w : W)
      → json_at w (cache_key a.id) ≡ some (assistant_payload rt a)
      → ¬ IsVisible rt (kept a) k
      → delete_assistant rt both a.id k w ≡ (raise (assistant_not_found a.id), w)
  unfolding delete_assistant ◌>>=◌
  delete_assistant-refused index times floats a k w h hidden =
      elim (enforce_owner_cases rt (kept a) k) [
        | inl (passed, visible) ↦ absurd (hidden visible)
        | inr (refused, _) ↦
            let svc' = record svc { db_repo = some repo } in
            rw (get_assistant_of_payload rt svc' c laws index times floats a k w h, refused) refl
      ]

  get_cached_assistant-absent :
      (id : String) (w : W)
      → json_at w (cache_key id) ≡ none
      → get_cached_assistant rt both id w ≡ (ok none, w)
  unfolding get_cached_assistant read_assistant ◌>>=◌
  get_cached_assistant-absent id w absent = rw (laws.get_json_lem (cache_key id) w, absent) refl

  get_from_db-hidden :
      (id : String) (row : AssistantRow) (k : Option String) (w : W)
      → repo.get_assistant_row id w ≡ (ok (some row), w)
      → ¬ IsVisible rt (map_assistant_row row) k
      → get_from_db rt both id k w ≡ (ok none, w)
  unfolding get_from_db found_in_db ◌>>=◌
  get_from_db-hidden id row k w there hidden =
      elim (enforce_owner_cases rt (map_assistant_row row) k) [
        | inl (passed, visible) ↦ absurd (hidden visible)
        | inr (refused, _) ↦ rw (there, refused) refl
      ]

  -- If the cache holds nothing under an assistant's key, a request that may not see the assistant
  -- deletes it: the exception of the owner's check is swallowed, and with a database that answers,
  -- the row is deleted and the answer is True.
  pub delete_assistant-not_cached :
      (id : String) (row : AssistantRow) (k : Option String) (w w1 : W)
      → json_at w (cache_key id) ≡ none
      → repo.get_assistant_row id w ≡ (ok (some row), w)
      → ¬ IsVisible rt (map_assistant_row row) k
      → repo.delete_assistant_row id w ≡ (ok true, w1)
      → delete_assistant rt both id k w ≡ (ok true, (c.delete (cache_key id) w1).1)
  unfolding delete_assistant get_assistant check_cached delete_row drop_cached ◌>>=◌
  delete_assistant-not_cached id row k w w1 absent there hidden deleted =
      rw
        (
          get_cached_assistant-absent id w absent,
          get_from_db-hidden id row k w there hidden,
          deleted,
        )
        (ground (arith, laws.delete_ok (cache_key id) w1))
