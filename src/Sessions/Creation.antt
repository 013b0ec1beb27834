-- ===== src/Sessions/Creation.antt =====
-- `create_session`: what it returns on every path, and what can be read afterwards.
use mathlib.Core.Option.{get_or}
use claude_agent_api.Common.{ℕ, String, ◌≡◌, refl, Bool, Option, some, arith}
use claude_agent_api.Exec.{Exn, ok, raise, api_error, ◌>>=◌, ◌>>=?◌}
use claude_agent_api.Json.{Dict}
use claude_agent_api.Interfaces.{Cache, SessionRepository}
use claude_agent_api.Runtime.{Runtime, RuntimeLaws}
use claude_agent_api.Stores.{JsonLaws, IndexLaws}
use claude_agent_api.Sessions.Model.{Session}
use claude_agent_api.Sessions.CacheManager.{cache_key, cache_session}
use claude_agent_api.Sessions.CacheManager.Aside.{
  cache_session-json, get_cached_session-cache_session,
}
use claude_agent_api.Sessions.Service.{
  SessionService, cache_manager, new_session, write_to_db, create_error, create_session,
  check_cached, enforce_owner, get_session, uuid_if_given,
}

abbrev pub cache_failed : Exn
cache_failed =
    api_error "Session caching failed. Distributed sessions require Redis." "CACHE_UNAVAILABLE" 503

module _ {W : Type 0} (rt : Runtime) (svc : SessionService W) (fresh : String) (now : ℕ)
    (model : String) (sid parent owner : Option String) where
  abbrev pub created : Session
  created = new_session rt (get_or sid fresh) now model parent owner

  -- If the database refuses the row, `create_session` raises the error that belongs to what the
  -- database raised (409 for a duplicate, 503 for an unavailable database, 500 for the rest), in
  -- the world that the database left: the cache is not touched.
  pub create_session-db_error :
      (repo : SessionRepository W) (u : String) (p : Option String) (e : Exn) (w w' : W)
      → svc.db_repo ≡ some repo
      → rt.uuid (get_or sid fresh) ≡ ok u
      → uuid_if_given rt parent ≡ ok p
      → repo.create u model p owner w ≡ (raise e, w')
      → create_session rt svc fresh now model sid parent owner w ≡ (raise (create_error e), w')
  unfolding create_session write_to_db ◌>>=◌
  create_session-db_error repo u p e w w' has id_ok parent_ok refused = ground arith

module _ {W : Type 0} (rt : Runtime) (svc : SessionService W) (c : Cache W)
    {json_at : W → String → Option Dict} {has_key : W → String → Bool}
    (laws : JsonLaws c json_at svc.ttl has_key) (index : IndexLaws c json_at svc.ttl) where
  abbrev pub with_cache : SessionService W
  with_cache = record svc { cache = some c }

  create_session-ok :
      (fresh : String) (now : ℕ) (model : String) (sid parent owner : Option String) (w w1 : W)
      → write_to_db rt with_cache (get_or sid fresh) model parent owner w ≡ (ok tt, w1)
      → let s = created rt with_cache fresh now model sid parent owner in
        create_session rt with_cache fresh now model sid parent owner w
        ≡ (ok s, (cache_session rt (cache_manager with_cache) s w1).1)
  unfolding create_session ◌>>=◌
  create_session-ok fresh now model sid parent owner w w1 row =
      let s = created rt with_cache fresh now model sid parent owner in
      ground (arith, cache_session-json rt c svc.ttl laws index s w1 (cache_key s.id))

  get_session-cached :
      RuntimeLaws rt
      → (s : Session) (k : Option String) (w : W)
      → let u = (cache_session rt (cache_manager with_cache) s w).1 in
        get_session rt with_cache s.id k u ≡ ((enforce_owner rt s k >>=? λ t. ok (some t)), u)
  unfolding get_session check_cached ◌>>=◌
  get_session-cached rtl s k w =
      rw (get_cached_session-cache_session rt c svc.ttl laws index rtl s w) (ground arith)

  -- After a session was created, through a database that took its row and a cache that answers, a
  -- request for it is answered from the cache: with the session as it was created if the owner's
  -- check lets the request see it, and with the check's exception if not.
  pub get_session-create_session :
      RuntimeLaws rt
      → (fresh : String) (now : ℕ) (model : String) (sid parent owner k : Option String) (w w1 : W)
      → write_to_db rt with_cache (get_or sid fresh) model parent owner w ≡ (ok tt, w1)
      → let s = created rt with_cache fresh now model sid parent owner in
        let (r, w2) = create_session rt with_cache fresh now model sid parent owner w in
        (r ≡ ok s)
        × (get_session rt with_cache s.id k w2 ≡ ((enforce_owner rt s k >>=? λ t. ok (some t)), w2))
  get_session-create_session rtl fresh now model sid parent owner k w w1 row =
      let s = created rt with_cache fresh now model sid parent owner in
      rw (create_session-ok fresh now model sid parent owner w w1 row)
        (refl, get_session-cached rtl s k w1)
