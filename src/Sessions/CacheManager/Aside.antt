-- ===== src/Sessions/CacheManager/Aside.antt =====
-- Writing a session to a cache that answers, and reading it back.
use claude_agent_api.Common.{
  ℕ, String, ◌≡◌, refl, Bool, Option, none, some, arith, ◌==◌, eq_refl, if◌then◌else◌,
}
use claude_agent_api.Exec.{ok, ◌>>=◌}
use claude_agent_api.Json.{Dict, Json, field}
use claude_agent_api.Interfaces.{Cache}
use claude_agent_api.Runtime.{Runtime, RuntimeLaws}
use claude_agent_api.Stores.{JsonLaws, IndexLaws}
use claude_agent_api.Sessions.Model.{Session, truthy}
use claude_agent_api.Sessions.CacheManager.{
  SessionCacheManager, cache_key, owner_index_key, session_payload, index_owner, cache_session,
  get_cached_session,
}
use claude_agent_api.Sessions.CacheManager.RoundTrip.{parse_cached_session-session_payload}

session_payload-ne-end :
    (rt : Runtime) (s : Session)
    → (k : String) × (v : Json) × (d : Dict) × (session_payload rt s ≡ field k v d)
unfolding session_payload
session_payload-ne-end rt s = (_, _, _, refl)

module _ {W : Type 0} (rt : Runtime) (c : Cache W) (ttl : ℕ) {json_at : W → String → Option Dict}
    {has_key : W → String → Bool} (laws : JsonLaws c json_at ttl has_key)
    (index : IndexLaws c json_at ttl) where
  abbrev pub manager : SessionCacheManager W
  manager = record { cache = some c; ttl = ttl }

  index_owner-json :
      (s : Session) (owner : Option String) (w : W) (j : String)
      → ((index_owner c ttl s owner w).0 ≡ ok tt)
        × (json_at (index_owner c ttl s owner w).1 j ≡ json_at w j)
  unfolding index_owner ◌>>=◌
  index_owner-json s none w j = (refl, refl)
  index_owner-json s (some owner) w j =
      let key = owner_index_key owner in
      let u = (c.add_to_set key s.id w).1 in
      ground (
        arith,
        index.add_to_set_ok key s.id w,
        index.json-add_to_set key s.id w j,
        index.expire_ok key u,
        index.json-expire key u j,
      )

  -- Caching a session does not raise, puts its payload under its key, and changes no other key.
  pub cache_session-json :
      (s : Session) (w : W) (j : String)
      → ((cache_session rt manager s w).0 ≡ ok tt)
        × (json_at (cache_session rt manager s w).1 j
            ≡ (if cache_key s.id == j then some (session_payload rt s) else json_at w j))
  unfolding cache_session ◌>>=◌
  cache_session-json s w j =
      let u = (c.set_json (cache_key s.id) (session_payload rt s) (some ttl) w).1 in
      ground (
        arith,
        laws.set_json_ok (cache_key s.id) (session_payload rt s) w,
        laws.json-set_json (cache_key s.id) (session_payload rt s) w j,
        index_owner-json s (truthy s.owner_api_key_hash) u j,
      )

  -- A payload of a session is read as that session.
  pub get_cached_of_payload :
      RuntimeLaws rt
      → (s : Session) (w : W) → json_at w (cache_key s.id) ≡ some (session_payload rt s)
      → get_cached_session rt manager s.id w ≡ (ok (some s), w)
  unfolding get_cached_session ◌>>=◌
  get_cached_of_payload rtl s w h = ground (
    arith,
    laws.get_json_lem (cache_key s.id) w,
    parse_cached_session-session_payload rt rtl s,
    session_payload-ne-end rt s,
  )

  -- A session that was just written to a cache that answers is read back whole, and the read
  -- writes nothing; `fromisoformat` inverts `isoformat`, and `lower` keeps the words for the
  -- statuses.
  pub get_cached_session-cache_session :
      RuntimeLaws rt
      → (s : Session) (w : W)
      → let u = (cache_session rt manager s w).1 in
        get_cached_session rt manager s.id u ≡ (ok (some s), u)
  get_cached_session-cache_session rtl s w =
      get_cached_of_payload rtl s _
        (ground (arith, cache_session-json s w (cache_key s.id), eq_refl (cache_key s.id)))
