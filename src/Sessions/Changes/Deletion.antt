-- ===== src/Sessions/Changes/Deletion.antt =====
-- `delete_session`: what it deletes, and what it leaves.
use claude_agent_api.Common.{
  String, ◌≡◌, ◌≢◌, Bool, true, false, Option, none, some, arith, eq_refl, Option-cases, inl, inr,
}
use claude_agent_api.Exec.{ok, ◌>>=◌}
use claude_agent_api.Json.{Dict}
use claude_agent_api.Interfaces.{Cache, SessionRepository, SessionRow}
use claude_agent_api.Runtime.{Runtime, RuntimeLaws}
use claude_agent_api.Stores.{JsonLaws, IndexLaws, HasLaws, RowLaws}
use claude_agent_api.Sessions.Model.{Session, truthy}
use claude_agent_api.Sessions.CacheManager.{
  cache_key, owner_index_key, session_payload, get_cached_session, delete_cached,
}
use claude_agent_api.Sessions.CacheManager.Aside.{get_cached_of_payload}
use claude_agent_api.Sessions.Service.{SessionService, cache_manager}
use claude_agent_api.Sessions.Changes.{delete_session, owner_hash}

module _ {W : Type 0} (rt : Runtime) (svc : SessionService W) (c : Cache W)
    (repo : SessionRepository W) {json_at : W → String → Option Dict} {has_key : W → String → Bool}
    {row_at : W → String → Option SessionRow} (laws : JsonLaws c json_at svc.ttl has_key)
    (has : HasLaws c json_at has_key) (index : IndexLaws c json_at svc.ttl)
    (rows : RowLaws c repo json_at row_at) where
  abbrev pub both : SessionService W
  both = record svc { cache = some c; db_repo = some repo }

  -- A key that is not there cannot be read.
  json-none : (k : String) (w : W) → has_key w k ≡ false → json_at w k ≡ none
  json-none k w h = elim (Option-cases (json_at w k)) [
    | inl e ↦ e
    | inr (d, e) ↦ absurd (ground (arith, laws.has_of_json k w d))
  ]

  get_cached_session-absent :
      (id : String) (w : W)
      → has_key w (cache_key id) ≡ false
      → get_cached_session rt (cache_manager both) id w ≡ (ok none, w)
  unfolding get_cached_session ◌>>=◌
  get_cached_session-absent id w h =
      ground (arith, laws.get_json_lem (cache_key id) w, json-none (cache_key id) w h)

  owner_hash-absent :
      (id u : String) (w : W)
      → has_key w (cache_key id) ≡ false
      → rt.uuid id ≡ ok u
      → (h : Option String) × (owner_hash rt both id w ≡ (ok h, w))
  unfolding owner_hash ◌>>=◌
  owner_hash-absent id u w h e = elim (Option-cases (row_at w u)) [
    | inl gone ↦ (none, ground (arith, get_cached_session-absent id w h, rows.get_row_lem u w))
    | inr (row, there) ↦ (
      row.owner_api_key_hash,
      ground (arith, get_cached_session-absent id w h, rows.get_row_lem u w),
    )
  ]

  delete_cached-lem :
      (id : String) (h : Option String) (w : W) (u : String)
      → ((x : String) → owner_index_key x ≢ cache_key id)
      → let (r, w') = delete_cached (cache_manager both) id h w in
        (r ≡ ok (has_key w (cache_key id)))
        × (json_at w' (cache_key id) ≡ none)
        × (row_at w' u ≡ row_at w u)
  unfolding delete_cached ◌>>=◌
  delete_cached-lem id h w u apart = elim (Option-cases (truthy h)) [
    | inl e ↦ ground (
      arith,
      laws.delete_ok (cache_key id) w,
      laws.json-delete (cache_key id) w (cache_key id),
      eq_refl (cache_key id),
      rows.row-delete (cache_key id) w u,
    )
    | inr (owner, e) ↦
        let v = (c.remove_from_set (owner_index_key owner) id w).1 in
        ground (
          arith,
          index.remove_from_set_ok (owner_index_key owner) id w,
          has.has-remove_from_set (owner_index_key owner) id w (cache_key id) (apart owner),
          rows.row-remove_from_set (owner_index_key owner) id w u,
          laws.delete_ok (cache_key id) v,
          laws.json-delete (cache_key id) v (cache_key id),
          eq_refl (cache_key id),
          rows.row-delete (cache_key id) v u,
        )
  ]

  -- With a cache and a database that answer, an id that is a UUID and whose key is no owner's
  -- index: if there is nothing under its key in the cache, nothing is deleted, also if the
  -- database holds the session. `delete_session` answers False, and every row is left as it was.
  pub delete_session-uncached :
      (id u v : String) (w : W)
      → ((x : String) → owner_index_key x ≢ cache_key id)
      → rt.uuid id ≡ ok u
      → has_key w (cache_key id) ≡ false
      → let (r, w') = delete_session rt both id w in (r ≡ ok false) × (row_at w' v ≡ row_at w v)
  unfolding delete_session ◌>>=◌
  delete_session-uncached id u v w apart e absent =
      let (h, found) = owner_hash-absent id u w absent e in
      ground (arith, found, delete_cached-lem id h w v apart)

  -- With a cache and a database that answer, an id that is a UUID and whose key is no owner's
  -- index: a session that is cached is deleted. The answer is True, and afterwards neither the
  -- cache's payload nor the database's row is there.
  pub delete_session-cached :
      RuntimeLaws rt
      → (s : Session) (u : String) (w : W) → ((x : String) → owner_index_key x ≢ cache_key s.id)
      → rt.uuid s.id ≡ ok u
      → json_at w (cache_key s.id) ≡ some (session_payload rt s)
      → let (r, w') = delete_session rt both s.id w in
        (r ≡ ok true) × (json_at w' (cache_key s.id) ≡ none) × (row_at w' u ≡ none)
  unfolding delete_session owner_hash ◌>>=◌
  delete_session-cached rtl s u w apart e payload =
      let w1 = (delete_cached (cache_manager both) s.id s.owner_api_key_hash w).1 in
      ground (
        arith,
        get_cached_of_payload rt c svc.ttl laws index rtl s w payload,
        laws.has_of_json (cache_key s.id) w (session_payload rt s),
        delete_cached-lem s.id s.owner_api_key_hash w u apart,
        rows.delete_row_ok u w1,
        rows.row-delete_row u w1 u,
        rows.json-delete_row u w1 (cache_key s.id),
        eq_refl u,
      )
