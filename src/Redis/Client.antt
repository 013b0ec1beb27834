-- ===== src/Redis/Client.antt =====
-- The Redis client and the codecs that apps/api/adapters/cache.py calls, with what it relies on.
use claude_agent_api.Common.{
  not, ◌||◌, ◌&&◌, ℕ, ◌<◌, String, ◌≡◌, Bool, true, false, Option, none, some, List, map, ◌==◌,
  if◌then◌else◌,
}
use claude_agent_api.Common.Int.{ℤ}
use claude_agent_api.Json.{Dict}
use claude_agent_api.Exec.{redis_error, raise, Exec, Outcome, ok}

-- str.encode("utf-8"), bytes.decode("utf-8"), json.dumps, json.loads and str.strip, over the bytes
-- `B`. What `loads` gives is a dict, as the code annotates it. `type_error` and its like are not
-- among what `loads` raises.
pub record Codec (B : Type 0) : Type 0 where
  pub encode : String → B
  pub decode : B → Outcome String
  pub dumps : Dict → String
  pub loads : String → Option Dict
  pub strip : String → String

-- redis.asyncio.Redis, method by method. `set_nx` is `set(nx=True, ex=ttl)`.
pub record RedisClient (W B : Type 0) : Type 0 where
  pub get : String → Exec W (Option B)
  pub mget : List String → Exec W (List (Option B))
  pub set : String → B → Exec W Bool
  pub setex : String → ℕ → B → Exec W Bool
  pub set_nx : String → B → ℕ → Exec W (Option Bool)
  -- the cursor, the pattern and the count; the next cursor and some keys
  pub scan : ℕ → String → ℕ → Exec W (ℕ × List B)
  pub delete : String → Exec W ℕ
  pub exists : String → Exec W ℕ
  pub sadd : String → B → Exec W ℕ
  pub srem : String → B → Exec W ℕ
  pub smembers : String → Exec W (List B)
  -- the script, its keys and its arguments
  pub eval : String → String → String → Exec W ℕ
  pub flushdb : Exec W Bool
  pub ping : Exec W Bool
  pub incr : String → Exec W ℤ
  pub expire : String → ℕ → Exec W Bool

pub record CodecLaws {B : Type 0} (codec : Codec B) : Type 0 where
  pub decode-encode : (s : String) → codec.decode (codec.encode s) ≡ ok s
  pub loads-dumps : (d : Dict) → codec.loads (codec.dumps d) ≡ some d
  -- the text of a dict is not blank, and a blank text is no JSON
  pub strip-dumps : (d : Dict) → (codec.strip (codec.dumps d) == "") ≡ false
  pub loads_blank : (s : String) → (codec.strip s == "") ≡ true → codec.loads s ≡ none

-- What is under a key: nothing, a text, or a set.
pub data Entry (A : Type 0) : Type 0 where
  nothing : Entry A
  text_entry : A → Entry A
  set_entry : Entry A

module _ {A : Type 0} where
  abbrev pub is_text : Entry A → Bool
  is_text (text_entry a) = true
  is_text e = false

  abbrev pub is_there : Entry A → Bool
  is_there nothing = false
  is_there e = true

  -- GET refuses a set (WRONGTYPE), and MGET gives nil for it.
  abbrev pub got : Entry A → Outcome (Option A)
  got nothing = ok none
  got (text_entry a) = ok (some a)
  got set_entry = raise redis_error

  abbrev pub row_of : Entry A → Option A
  row_of (text_entry a) = some a
  row_of e = none

  -- A command for sets refuses a text (WRONGTYPE).
  abbrev pub for_set : {X : Type 0} → Entry A → X → Outcome X
  for_set (text_entry a) x = raise redis_error
  for_set e x = ok x

-- A Redis that answers, and in which no time passes between the commands: `entry_at w k` is what
-- is under a key, and `is_member w k v` whether the set under it has the text `v`. DEL, EXPIRE and
-- SETEX take keys of every type, and EXPIRE and SETEX a lifetime of at least one second.
pub record ClientLaws {W B : Type 0} (codec : Codec B) (client : RedisClient W B)
    (entry_at : W → String → Entry B) (is_member : W → String → String → Bool) : Type 0 where
  pub get_lem : (k : String) (w : W) → client.get k w ≡ (got (entry_at w k), w)
  pub mget_lem :
      (ks : List String) (w : W) → client.mget ks w ≡ (ok (map (λ k. row_of (entry_at w k)) ks), w)
  pub setex_ok :
      (k : String) (t : ℕ) (b : B) (w : W)
      → 0 < t
      → (done : Bool) × ((client.setex k t b w).0 ≡ ok done)
  pub entry-setex :
      (k : String) (t : ℕ) (b : B) (w : W) (j : String)
      → 0 < t
      → entry_at (client.setex k t b w).1 j ≡ (if k == j then text_entry b else entry_at w j)
  pub member-setex :
      (k : String) (t : ℕ) (b : B) (w : W) (j x : String)
      → 0 < t
      → is_member (client.setex k t b w).1 j x ≡ (not (k == j) && is_member w j x)
  pub delete_lem :
      (k : String) (w : W) → (client.delete k w).0 ≡ ok (if is_there (entry_at w k) then 1 else 0)
  pub entry-delete :
      (k : String) (w : W) (j : String)
      → entry_at (client.delete k w).1 j ≡ (if k == j then nothing else entry_at w j)
  pub member-delete :
      (k : String) (w : W) (j x : String)
      → is_member (client.delete k w).1 j x ≡ (not (k == j) && is_member w j x)
  pub exists_lem :
      (k : String) (w : W) → client.exists k w ≡ (ok (if is_there (entry_at w k) then 1 else 0), w)
  -- how many members are new
  pub sadd_lem :
      (k v : String) (w : W)
      → (client.sadd k (codec.encode v) w).0
        ≡ for_set (entry_at w k) (if is_member w k v then 0 else 1)
  pub entry-sadd :
      (k v : String) (w : W) (j : String)
      → entry_at (client.sadd k (codec.encode v) w).1 j
        ≡ (if k == j && not (is_text (entry_at w k)) then set_entry else entry_at w j)
  pub member-sadd :
      (k v : String) (w : W) (j x : String)
      → is_member (client.sadd k (codec.encode v) w).1 j x
        ≡ (is_member w j x || not (is_text (entry_at w k)) && (k == j && v == x))
  -- how many members are gone; an empty set is removed with its key
  pub srem_lem :
      (k v : String) (w : W)
      → (client.srem k (codec.encode v) w).0
        ≡ for_set (entry_at w k) (if is_member w k v then 1 else 0)
  pub entry-srem :
      (k v : String) (w : W)
      → (last : Bool) × ((last && is_text (entry_at w k)) ≡ false)
        × ((j : String)
            → entry_at (client.srem k (codec.encode v) w).1 j
              ≡ (if k == j && last then nothing else entry_at w j))
  pub member-srem :
      (k v : String) (w : W) (j x : String)
      → is_member (client.srem k (codec.encode v) w).1 j x
        ≡ (is_member w j x && not (k == j && v == x))
  pub expire_lem :
      (k : String) (t : ℕ) (w : W) → 0 < t → (client.expire k t w).0 ≡ ok (is_there (entry_at w k))
  pub entry-expire :
      (k : String) (t : ℕ) (w : W) (j : String)
      → 0 < t
      → entry_at (client.expire k t w).1 j ≡ entry_at w j
  pub member-expire :
      (k : String) (t : ℕ) (w : W) (j x : String)
      → 0 < t
      → is_member (client.expire k t w).1 j x ≡ is_member w j x
