-- ===== src/Redis/Store.antt =====
-- What apps/api/adapters/cache.py keeps in Redis, as the services see it.
use claude_agent_api.Common.{
  ℕ, String, ◌≡◌, Bool, true, false, not, ◌&&◌, ◌||◌, Option, none, some, ◌==◌, if◌then◌else◌,
}
use claude_agent_api.Exec.{Outcome, ok, raise, ◌>>=?◌}
use claude_agent_api.Json.{Dict}
use claude_agent_api.Interfaces.{Cache}
use claude_agent_api.Redis.Client.{
  Codec, Entry, nothing, text_entry, set_entry, is_text, is_there, got, for_set,
}

-- The text or the exception that decoding gives, in place of the bytes.
abbrev pub view : {B : Type 0} → Codec B → Entry B → Entry (Outcome String)
view codec nothing = nothing
view codec (text_entry b) = text_entry (codec.decode b)
view codec set_entry = set_entry

-- What a read of a text gives: a text that is not UTF-8 raises, and so does a set.
abbrev pub read_text : Entry (Outcome String) → Outcome (Option String)
read_text e = got e >>=? λ t. elim t [ none ↦ ok none | some r ↦ r >>=? λ s. ok (some s) ]

-- What a read of a payload gives: None also for a text that is blank or no JSON.
abbrev pub read_json : {B : Type 0} → Codec B → Entry (Outcome String) → Outcome (Option Dict)
read_json codec e = read_text e >>=? λ t. elim t [
  | none ↦ ok none
  | some s ↦ ok (if codec.strip s == "" then none else codec.loads s)
]

-- What a read gives, and None for a read that raises.
abbrev pub value_or_none : Outcome (Option Dict) → Option Dict
value_or_none (ok v) = v
value_or_none (raise e) = none

-- A cache that keeps a text or a set under a key: `at w k` is what is there, and `is_member` what
-- its sets have.
pub record IsStore {W B : Type 0} (codec : Codec B) (cache : Cache W)
    (at : W → String → Entry (Outcome String)) (is_member : W → String → String → Bool) (ttl : ℕ)
    : Type 0 where
  pub get_text_lem : (k : String) (w : W) → cache.get_text k w ≡ (read_text (at w k), w)
  pub get_json_lem : (k : String) (w : W) → cache.get_json k w ≡ (read_json codec (at w k), w)
  pub exists_lem : (k : String) (w : W) → cache.exists k w ≡ (ok (is_there (at w k)), w)
  -- a write replaces what is under the key, a set too
  pub cache_set_lem :
      (k s : String) (w : W)
      → let (r, w') = cache.cache_set k s (some ttl) w in
        (r ≡ ok true)
        × ((j : String) → at w' j ≡ (if k == j then text_entry (ok s) else at w j))
        × ((j x : String) → is_member w' j x ≡ (not (k == j) && is_member w j x))
  pub set_json_lem :
      (k : String) (d : Dict) (w : W)
      → let (r, w') = cache.set_json k d (some ttl) w in
        (r ≡ ok true)
        × (cache.get_json k w' ≡ (ok (some d), w'))
        × ((j : String) → at w' j ≡ (if k == j then at w' k else at w j))
        × ((j x : String) → is_member w' j x ≡ (not (k == j) && is_member w j x))
  pub delete_lem :
      (k : String) (w : W)
      → let (r, w') = cache.delete k w in
        (r ≡ ok (is_there (at w k)))
        × ((j : String) → at w' j ≡ (if k == j then nothing else at w j))
        × ((j x : String) → is_member w' j x ≡ (not (k == j) && is_member w j x))
  -- an addition to a text raises and changes nothing
  pub add_to_set_lem :
      (k v : String) (w : W)
      → let (r, w') = cache.add_to_set k v w in
        (r ≡ for_set (at w k) (not (is_member w k v)))
        × ((j : String)
            → at w' j ≡ (if k == j && not (is_text (at w k)) then set_entry else at w j))
        × ((j x : String)
            → is_member w' j x ≡ (is_member w j x || not (is_text (at w k)) && (k == j && v == x)))
  -- so does a removal; with its last member a set is gone
  pub remove_from_set_lem :
      (k v : String) (w : W)
      → let (r, w') = cache.remove_from_set k v w in
        (r ≡ for_set (at w k) (is_member w k v))
        × ((last : Bool) × ((last && is_text (at w k)) ≡ false)
            × ((j : String) → at w' j ≡ (if k == j && last then nothing else at w j)))
        × ((j x : String) → is_member w' j x ≡ (is_member w j x && not (k == j && v == x)))
  pub expire_lem :
      (k : String) (w : W)
      → let (r, w') = cache.expire k ttl w in
        (r ≡ ok (is_there (at w k)))
        × ((j : String) → at w' j ≡ at w j)
        × ((j x : String) → is_member w' j x ≡ is_member w j x)
