-- ===== src/Threads/Properties.antt =====
-- What the cache keeps of a thread, and what the operations do to it.
use mathlib.Core.Option.{get_or}
use claude_agent_api.Common.{String, ◌≡◌, refl, Bool, Option, some, List, arith, eq_refl}
use claude_agent_api.Exec.{ok, ◌>>=◌}
use claude_agent_api.Interfaces.{Cache}
use claude_agent_api.Json.{Json, Dict, field}
use claude_agent_api.Payload.{payload_laws, NonemptyStr}
use claude_agent_api.Runtime.{Runtime}
use claude_agent_api.Stores.{JsonLaws}
use claude_agent_api.Threads.{
  Thread, ThreadService, cache_key, thread_payload, parse_cached_thread, cache_thread, get_thread,
  read_thread, modify_thread,
}

-- Parsing the payload written for a thread gives back that thread, if its session id is not an
-- empty text.
pub parse_cached_thread-thread_payload :
    (rt : Runtime) (t : Thread)
    → NonemptyStr t.session_id
    → parse_cached_thread rt (thread_payload t) ≡ ok (some t)
unfolding parse_cached_thread thread_payload
parse_cached_thread-thread_payload rt t h = simp (payload_laws, h) refl

thread_payload-ne-end :
    (t : Thread) → (k : String) × (v : Json) × (d : Dict) × (thread_payload t ≡ field k v d)
unfolding thread_payload
thread_payload-ne-end t = (_, _, _, refl)

module _ {W : Type 0} (rt : Runtime) (svc : ThreadService W) (c : Cache W)
    {json_at : W → String → Option Dict} {has_key : W → String → Bool}
    (laws : JsonLaws c json_at svc.ttl has_key) where
  abbrev pub over : ThreadService W
  over = record svc { cache = some c }

  get_thread_of_payload :
      (t : Thread) (k : Option String) (w : W)
      → NonemptyStr t.session_id
      → json_at w (cache_key t.id) ≡ some (thread_payload t)
      → get_thread rt over t.id k w ≡ (ok (some t), w)
  unfolding get_thread read_thread ◌>>=◌
  get_thread_of_payload t k w kept h = ground (
    arith,
    laws.get_json_lem (cache_key t.id) w,
    thread_payload-ne-end t,
    parse_cached_thread-thread_payload rt t kept,
  )

  cache_thread-json :
      (t : Thread) (w : W)
      → ((cache_thread rt over t w).0 ≡ ok tt)
        × (json_at (cache_thread rt over t w).1 (cache_key t.id) ≡ some (thread_payload t))
  unfolding cache_thread ◌>>=◌
  cache_thread-json t w =
      let k = cache_key t.id in
      ground (
        arith,
        laws.set_json_ok k (thread_payload t) w,
        laws.json-set_json k (thread_payload t) w k,
        eq_refl k,
      )

  -- Modifying a thread that a cache that answers holds, its session id not an empty text, replaces
  -- its metadata, if new metadata is given, and keeps the rest; a later read, whoever asks, gives
  -- the modified thread.
  pub modify_thread-get_thread :
      (t : Thread) (metadata : Option (List (String × String))) (k j : Option String) (w : W)
      → NonemptyStr t.session_id
      → json_at w (cache_key t.id) ≡ some (thread_payload t)
      → let t' = record t { metadata = get_or metadata t.metadata } in
        let (r, w') = modify_thread rt over t.id metadata k w in
        (r ≡ ok (some t')) × (get_thread rt over t.id j w' ≡ (ok (some t'), w'))
  unfolding modify_thread ◌>>=◌
  modify_thread-get_thread t metadata k j w kept h =
      let t' = record t { metadata = get_or metadata t.metadata } in
      let (cached, holds) = cache_thread-json t' w in
      rw (get_thread_of_payload t k w kept h, cached)
        (refl, get_thread_of_payload t' j _ kept holds)
