-- ===== src/Witnesses/Redis.antt =====
-- Runs of apps/api/adapters/cache.py on a small Redis: texts under keys, on which SCAN finds at
-- most one key at once.
use claude_agent_api.Common.{
  ◌=ℕ◌, ℕ, ◌≤◌, ◌<◌, String, ◌≡◌, ◌≢◌, ◌⊎◌, refl, ap, Bool, true, false, Option, none, some, List,
  [], ◌∷◌, map, length, All, arith, ◌==◌, if◌then◌else◌, Bool-cases, eq_iff, inl, inr,
}
use claude_agent_api.Common.Int.{pos}
use claude_agent_api.Exec.{◌>>=◌, Outcome, ok, raise, value_error, pure}
use claude_agent_api.Redis.Client.{RedisClient}
use claude_agent_api.Redis.Adapter.{lock_name, acquire_lock}
use claude_agent_api.Redis.Scan.{ScanLaws, scan_keys, scan_keys_lem}
use claude_agent_api.Redis.Locks.{LockLaws, System, Reach, acquire, start, later}
use claude_agent_api.Redis.Locks.Exclusion.{mutual_exclusion}
use claude_agent_api.Witnesses.Codec.{codec, codec-laws}

abbrev Texts : Type 0
Texts = String → Option String

abbrev text_at : Texts → String → Option String
text_at w k = w k

abbrev is_there : Option String → Bool
is_there none = false
is_there (some s) = true

abbrev has_key : Texts → String → Bool
has_key w k = is_there (w k)

abbrev write : String → Option String → Texts → Texts
write k t w j = if k == j then t else w j

-- a script on a key that holds `found`
abbrev ran : Bool → String → Texts → Outcome ℕ × Texts
ran true k w = (ok 1, write k none w)
ran false k w = (ok 0, w)

abbrev holds : Option String → String → Bool
holds none v = false
holds (some s) v = s == v

abbrev put_if_free : Option String → String → String → Texts → Outcome (Option Bool) × Texts
put_if_free none k s w = (ok (some true), write k (some s) w)
put_if_free (some u) k s w = (ok none, w)

abbrev found : String → Bool → List String
found p true = p ∷ []
found p false = []

abbrev redis : RedisClient Texts String
redis = record {
  get = λ k w. (ok (w k), w);
  mget = λ ks w. (ok (map w ks), w);
  set = λ k s w. (ok true, write k (some s) w);
  setex = λ k t s w. (ok true, write k (some s) w);
  set_nx = λ k s t w. put_if_free (w k) k s w;
  scan = λ c p n w. (ok (0, found p (has_key w p)), w);
  delete = λ k w. (ok (if has_key w k then 1 else 0), write k none w);
  exists = λ k w. (ok (if has_key w k then 1 else 0), w);
  sadd = λ k v w. (ok 1, w);
  srem = λ k v w. (ok 1, w);
  smembers = λ k w. (ok [], w);
  eval = λ s k v w. ran (holds (w k) v) k w;
  flushdb = λ w. (ok true, λ k. none);
  ping = λ w. (ok true, w);
  incr = λ k w. (ok (pos 1), w);
  expire = λ k t w. (ok true, w);
}

abbrev matches : String → String → Bool
matches pattern k = k == pattern

abbrev rounds_left : ℕ → Texts → ℕ
rounds_left c w = 0

found-matches : (p : String) (there : Bool) → All (λ k. matches p k ≡ true) (found p there)
found-matches p true = ((eq_iff p p).1 refl, tt)
found-matches p false = tt

map_id : (ks : List String) → ks ≡ map (λ k. k) ks
map_id [] = refl
map_id (k ∷ ks) = ap (◌∷◌ k) (map_id ks)

scan-laws : ScanLaws codec redis matches rounds_left
scan-laws = record {
  scan_lem = λ c p n w. (
    0,
    found p (has_key w p),
    ap (λ ks. ok (0, ks)) (map_id (found p (has_key w p))),
    found-matches p (has_key w p),
    inl refl,
  );
}

same : (k : String) → (k == k) ≡ true
same k = (eq_iff k k).1 refl

holds-other : (t : Option String) (v : String) → t ≢ some v → holds t v ≡ false
holds-other none v other = refl
holds-other (some s) v other = elim (Bool-cases (s == v)) [
  | inl e ↦ absurd (other (ap some ((eq_iff s v).0 e)))
  | inr e ↦ e
]

lock-laws : LockLaws codec redis text_at
lock-laws = record {
  nx_free = λ k s t w p free. rw free (refl, rw (same k) refl);
  nx_taken = λ k s u t w full. rw full (refl, full);
  script_own = λ k v w own. rw (own, same v) (refl, rw (same k) refl);
  script_other = λ k v w other. rw (holds-other (w k) v other) (refl, refl);
}

abbrev empty : Texts
empty k = none

abbrev one_lock : Texts
one_lock = write (lock_name "session:s1") (some "mine") empty

scan_keys_lem_example :
    ((10000 < 10) × (scan_keys codec redis 1 "k" 10 empty ≡ (raise value_error, empty)))
    ⊎ ((10 ≤ 10000)
        × ((keys : List String) × ((scan_keys codec redis 1 "k" 10 empty).0 ≡ ok keys)
            × (length keys ≤ 10)
            × All (λ k. matches "k" k ≡ true) keys))
scan_keys_lem_example = scan_keys_lem codec redis codec-laws scan-laws "k" 10 1 empty (omega arith)

-- Client 0 takes the lock, and client 1 tries.
abbrev nobody : System codec redis text_at
nobody = record { world = empty; held = λ i. none }

abbrev owned : System codec redis text_at
owned = record {
  world = (acquire_lock codec redis (pure "a") "k" 30 none empty).1;
  held = λ j. if 0 =ℕ j then some "a" else none;
}

abbrev refused : System codec redis text_at
refused = record {
  world = (acquire_lock codec redis (pure "b") "k" 30 none owned.world).1;
  held = λ j. if 1 =ℕ j then none else owned.held j;
}

not_b : (mine : Bool) → ◌≢◌ {A = Option String} (if mine then some "a" else none) (some "b")
not_b true e = ground (arith, ap (λ t. holds t "b") e)
not_b false e = ground (arith, e)

run : Reach codec redis text_at "k" 30 false nobody refused
unfolding acquire_lock ◌>>=◌
run =
    later (later start (acquire 0 "a" refl (λ j e. ground (arith, e)) refl refl))
      (acquire 1 "b" refl (λ j. not_b (0 =ℕ j)) refl refl)

mutual_exclusion_example : ◌≡◌ {A = ℕ} 0 0
mutual_exclusion_example =
    mutual_exclusion codec redis lock-laws "k" 30 (omega arith) {s = nobody} {t = refused} 0 0 "a"
      "a" (λ j. refl) run refl refl (inl refl)
