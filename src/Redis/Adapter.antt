-- ===== src/Redis/Adapter.antt =====
-- apps/api/adapters/cache.py: `RedisCache`, but for the scan of keys (Redis/Scan) and the making of
-- the client. Logging is left out.
use Prim.Native.String
use claude_agent_api.Common.{
  ℕ, String, Bool, true, false, Option, none, some, List, [], ◌∷◌, map, ◌==◌, ◌=ℕ◌, ltb,
  if◌then◌else◌,
}
use claude_agent_api.Common.Int.{ℤ}
use claude_agent_api.Json.{Dict}
use claude_agent_api.Exec.{Exec, Outcome, ok, raise, pure, lift, catch, ◌>>=◌, ◌>>=?◌}
use claude_agent_api.Redis.Client.{Codec, RedisClient}

-- The script of `release_lock`: delete the key if it holds the value.
abbrev pub release_script : String
release_script =
    "\n        if redis.call(\"get\", KEYS[1]) == ARGV[1] then\n            return redis.call(\"del\", KEYS[1])\n        else\n            return 0\n        end\n        "

abbrev pub lock_name : String → String
lock_name key = String.◌++◌ "lock:" key

module _ {W B : Type 0} (codec : Codec B) (client : RedisClient W B) where
  unfoldable pub decoded : Option B → Outcome (Option String)
  decoded none = ok none
  decoded (some value) = codec.decode value >>=? λ s. ok (some s)

  -- `get`
  unfoldable pub get_text : String → Exec W (Option String)
  unfolding decoded
  get_text key = do value ← client.get key; lift (decoded value)

  unfoldable pub parsed : Option String → Option Dict
  parsed none = none
  parsed (some value) = if codec.strip value == "" then none else codec.loads value

  unfoldable pub get_json : String → Exec W (Option Dict)
  get_json key = do value ← get_text key; pure (parsed value)

  -- One row of `get_many_json`: what cannot be decoded or parsed is None.
  unfoldable pub parse_row : Option B → Option Dict
  parse_row none = none
  parse_row (some raw) = elim (codec.decode raw) [ ok s ↦ codec.loads s | raise e ↦ none ]

  unfoldable pub get_many_json : List String → Exec W (List (Option Dict))
  get_many_json [] = pure []
  get_many_json (k ∷ ks) = do values ← client.mget (k ∷ ks); pure (map parse_row values)

  unfoldable pub cache_set : String → String → Option ℕ → Exec W Bool
  cache_set key value none = do _ ← client.set key (codec.encode value); pure true
  cache_set key value (some ttl) = do _ ← client.setex key ttl (codec.encode value); pure true

  unfoldable pub set_json : String → Dict → Option ℕ → Exec W Bool
  set_json key value ttl = cache_set key (codec.dumps value) ttl

  unfoldable pub clear : Exec W Bool
  clear = client.flushdb

  unfoldable pub delete : String → Exec W Bool
  delete key = do result ← client.delete key; pure (ltb 0 result)

  unfoldable pub exists : String → Exec W Bool
  exists key = do result ← client.exists key; pure (ltb 0 result)

  unfoldable pub add_to_set : String → String → Exec W Bool
  add_to_set key value = do result ← client.sadd key (codec.encode value); pure (ltb 0 result)

  unfoldable pub remove_from_set : String → String → Exec W Bool
  remove_from_set key value = do result ← client.srem key (codec.encode value); pure (ltb 0 result)

  unfoldable pub decode_all : List B → Outcome (List String)
  decode_all [] = ok []
  decode_all (m ∷ ms) = codec.decode m >>=? λ s. decode_all ms >>=? λ ss. ok (s ∷ ss)

  unfoldable pub set_members : String → Exec W (List String)
  unfolding decode_all
  set_members key = do members ← client.smembers key; lift (decode_all members)

  -- `value or str(uuid4())`
  lock_value : Exec W String → Option String → Exec W String
  lock_value uuid4 none = uuid4
  lock_value uuid4 (some v) = if v == "" then uuid4 else pure v

  unfoldable pub acquire_lock : Exec W String → String → ℕ → Option String → Exec W (Option String)
  unfolding lock_value
  acquire_lock uuid4 key ttl value = do
    v ← lock_value uuid4 value
    result ← client.set_nx (lock_name key) (codec.encode v) ttl
    pure (elim result [ none ↦ none | some taken ↦ if taken then some v else none ])

  unfoldable pub release_lock : String → String → Exec W Bool
  release_lock key value = do
    result ← client.eval release_script (lock_name key) value
    pure (result =ℕ 1)

  unfoldable pub ping : Exec W Bool
  ping = catch client.ping (λ _. pure false)

  unfoldable pub incr : String → Exec W ℤ
  incr key = client.incr key

  unfoldable pub expire : String → ℕ → Exec W Bool
  expire key ttl = client.expire key ttl
