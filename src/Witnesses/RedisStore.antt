-- ===== src/Witnesses/RedisStore.antt =====
-- Runs of apps/api/adapters/cache.py on a small Redis with texts, sets and bytes that are no UTF-8.
use claude_agent_api.Common.{
  eq_flip, ℕ, String, ◌≡◌, refl, ap, sym, ◌∙◌, Bool, true, false, not, ◌&&◌, ◌||◌, Option, none,
  some, List, [], ◌∷◌, map, arith, ◌==◌, if◌then◌else◌, Bool-cases, eq_iff, inl, inr,
}
use claude_agent_api.Common.Int.{pos}
use claude_agent_api.Json.{field, str, end}
use claude_agent_api.Exec.{Outcome, ok, raise, value_error, redis_error, pure}
use claude_agent_api.Redis.Client.{
  Codec, CodecLaws, RedisClient, ClientLaws, Entry, nothing, text_entry, set_entry, is_text,
  is_there, got, row_of, for_set,
}
use claude_agent_api.Redis.Adapter.{get_json, get_many_json}
use claude_agent_api.Redis.Scan.{redis_cache}
use claude_agent_api.Redis.Store.{value_or_none, view, IsStore}
use claude_agent_api.Redis.Refines.{get_many_json_lem, redis_cache_refines}
use claude_agent_api.Witnesses.Codec.{codec, codec-laws}

-- Some text's bytes, or bytes that are no UTF-8.
abbrev Bytes : Type 0
Bytes = Option String

abbrev decode_bytes : Bytes → Outcome String
decode_bytes none = raise value_error
decode_bytes (some s) = ok s

abbrev bytes_codec : Codec Bytes
bytes_codec = record {
  encode = some;
  decode = decode_bytes;
  dumps = codec.dumps;
  loads = codec.loads;
  strip = codec.strip;
}

bytes-laws : CodecLaws bytes_codec
bytes-laws = record {
  decode-encode = λ s. refl;
  loads-dumps = codec-laws.loads-dumps;
  strip-dumps = codec-laws.strip-dumps;
  loads_blank = codec-laws.loads_blank;
}

data Slot : Type 0 where
  free : Slot
  bytes : Bytes → Slot
  members : List Bytes → Slot

abbrev Slots : Type 0
Slots = String → Slot

abbrev entry : Slot → Entry Bytes
entry free = nothing
entry (bytes b) = text_entry b
entry (members bs) = set_entry

abbrev entry_at : Slots → String → Entry Bytes
entry_at w k = entry (w k)

abbrev is_text_of : Bytes → String → Bool
is_text_of none x = false
is_text_of (some s) x = s == x

abbrev has : List Bytes → String → Bool
has [] x = false
has (b ∷ bs) x = is_text_of b x || has bs x

abbrev has_in : Slot → String → Bool
has_in (members bs) x = has bs x
has_in s x = false

abbrev is_member : Slots → String → String → Bool
is_member w k x = has_in (w k) x

abbrev write : String → Slot → Slots → Slots
write k s w j = if k == j then s else w j

abbrev same_bytes : Bytes → Bytes → Bool
same_bytes none none = true
same_bytes (some s) b = is_text_of b s
same_bytes none (some s) = false

abbrev has_bytes : List Bytes → Bytes → Bool
has_bytes [] b = false
has_bytes (a ∷ others) b = same_bytes b a || has_bytes others b

abbrev without : List Bytes → Bytes → List Bytes
without [] b = []
without (a ∷ others) b = let rest = without others b in if same_bytes b a then rest else a ∷ rest

abbrev added : Slot → String → Bytes → Slots → Outcome ℕ × Slots
added free k v w = (ok 1, write k (members (v ∷ [])) w)
added (bytes b) k v w = (raise redis_error, w)
added (members bs) k v w = (ok (if has_bytes bs v then 0 else 1), write k (members (v ∷ bs)) w)

abbrev members_or_free : List Bytes → Slot
members_or_free [] = free
members_or_free (b ∷ bs) = members (b ∷ bs)

abbrev removed : Slot → String → Bytes → Slots → Outcome ℕ × Slots
removed free k v w = (ok 0, w)
removed (bytes b) k v w = (raise redis_error, w)
removed (members bs) k v w =
    (ok (if has_bytes bs v then 1 else 0), write k (members_or_free (without bs v)) w)

abbrev listed : Slot → Outcome (List Bytes)
listed free = ok []
listed (bytes b) = raise redis_error
listed (members bs) = ok bs

-- The commands of locks and scans are not run here.
abbrev redis : RedisClient Slots Bytes
redis = record {
  get = λ k w. (got (entry_at w k), w);
  mget = λ ks w. (ok (map (λ k. row_of (entry_at w k)) ks), w);
  set = λ k b w. (ok true, write k (bytes b) w);
  setex = λ k t b w. (ok true, write k (bytes b) w);
  set_nx = λ k b t w. (raise redis_error, w);
  scan = λ c p n w. (raise redis_error, w);
  delete = λ k w. (ok (if is_there (entry_at w k) then 1 else 0), write k free w);
  exists = λ k w. (ok (if is_there (entry_at w k) then 1 else 0), w);
  sadd = λ k v w. added (w k) k v w;
  srem = λ k v w. removed (w k) k v w;
  smembers = λ k w. (listed (w k), w);
  eval = λ s k v w. (raise redis_error, w);
  flushdb = λ w. (ok true, λ k. free);
  ping = λ w. (ok true, w);
  incr = λ k w. (ok (pos 1), w);
  expire = λ k t w. (ok (is_there (entry_at w k)), w);
}

has_bytes-some : (bs : List Bytes) (v : String) → has_bytes bs (some v) ≡ has bs v
has_bytes-some [] v = refl
has_bytes-some (b ∷ bs) v = ap (λ h. is_text_of b v || h) (has_bytes-some bs v)

entry-write :
    (k : String) (s : Slot) (w : Slots) (j : String)
    → entry (write k s w j) ≡ (if k == j then entry s else entry (w j))
entry-write k s w j = elim (Bool-cases (k == j)) [ inl e ↦ rw (e) refl | inr e ↦ rw (e) refl ]

has-write-free :
    (k : String) (s : Slot) (w : Slots) (j x : String)
    → has_in s x ≡ false
    → has_in (write k s w j) x ≡ (not (k == j) && has_in (w j) x)
has-write-free k s w j x h = elim (Bool-cases (k == j)) [ inl e ↦ rw (e) h | inr e ↦ rw (e) refl ]

added-count :
    (s : Slot) (k v : String) (w : Slots)
    → (added s k (some v) w).0 ≡ for_set (entry s) (if has_in s v then 0 else 1)
added-count free k v w = refl
added-count (bytes b) k v w = refl
added-count (members bs) k v w = rw (has_bytes-some bs v) refl

added-entry :
    (s : Slot) (k v : String) (w : Slots) (j : String)
    → entry ((added s k (some v) w).1 j)
      ≡ (if k == j && not (is_text (entry s)) then set_entry else entry (w j))
added-entry free k v w j = elim (Bool-cases (k == j)) [ inl e ↦ rw (e) refl | inr e ↦ rw (e) refl ]
added-entry (bytes b) k v w j = elim (Bool-cases (k == j)) [
  | inl e ↦ rw (e) refl
  | inr e ↦ rw (e) refl
]
added-entry (members bs) k v w j = elim (Bool-cases (k == j)) [
  | inl e ↦ rw (e) refl
  | inr e ↦ rw (e) refl
]

-- `w j` is the slot of `k` where the two keys are one.
at_same : (k j : String) (w : Slots) (s : Slot) → w k ≡ s → (k == j) ≡ true → w j ≡ s
at_same k j w s h e = ap w (sym ((eq_iff k j).0 e)) ∙ h

added-members :
    (s : Slot) (k v : String) (w : Slots) (j x : String)
    → w k ≡ s
    → has_in ((added s k (some v) w).1 j) x
      ≡ (has_in (w j) x || not (is_text (entry s)) && (k == j && v == x))
added-members free k v w j x h = elim (Bool-cases (k == j)) [
  | inl e ↦ rw (e, at_same k j w free h e) (ground arith)
  | inr e ↦ rw (e) (ground arith)
]
added-members (bytes b) k v w j x h = ground arith
added-members (members bs) k v w j x h = elim (Bool-cases (k == j)) [
  | inl e ↦ rw (e, at_same k j w (members bs) h e) (ground arith)
  | inr e ↦ rw (e) (ground arith)
]

removed-count :
    (s : Slot) (k v : String) (w : Slots)
    → (removed s k (some v) w).0 ≡ for_set (entry s) (if has_in s v then 1 else 0)
removed-count free k v w = refl
removed-count (bytes b) k v w = refl
removed-count (members bs) k v w = rw (has_bytes-some bs v) refl

abbrev is_nil : List Bytes → Bool
is_nil [] = true
is_nil (b ∷ bs) = false

entry-members_or_free :
    (bs : List Bytes) → entry (members_or_free bs) ≡ (if is_nil bs then nothing else set_entry)
entry-members_or_free [] = refl
entry-members_or_free (b ∷ bs) = refl

stays : (b : Bool) (e : Entry Bytes) → e ≡ (if b && false then nothing else e)
stays true e = refl
stays false e = refl

removed-entry :
    (s : Slot) (k v : String) (w : Slots)
    → w k ≡ s
    → (last : Bool) × ((last && is_text (entry s)) ≡ false)
      × ((j : String)
          → entry ((removed s k (some v) w).1 j)
            ≡ (if k == j && last then nothing else entry (w j)))
removed-entry free k v w h = (false, refl, λ j. stays (k == j) (entry (w j)))
removed-entry (bytes b) k v w h = (false, refl, λ j. stays (k == j) (entry (w j)))
removed-entry (members bs) k v w h =
    let last = is_nil (without bs (some v)) in
    (
      last,
      ground arith,
      λ j. elim (Bool-cases (k == j)) [
        | inl e ↦
            rw (e, at_same k j w (members bs) h e) (entry-members_or_free (without bs (some v)))
        | inr e ↦ rw (e) refl
      ],
    )

has-members_or_free : (bs : List Bytes) (x : String) → has_in (members_or_free bs) x ≡ has bs x
has-members_or_free [] x = refl
has-members_or_free (b ∷ bs) x = refl

has-without :
    (bs : List Bytes) (v x : String) → has (without bs (some v)) x ≡ (has bs x && not (v == x))
has-without [] v x = refl
has-without (none ∷ bs) v x = has-without bs v x
has-without (some s ∷ bs) v x = elim (Bool-cases (s == v)) [
  | inl e ↦
      let same : (s == x) ≡ (v == x) = ap (λ t. t == x) ((eq_iff s v).0 e) in
      rw (e) (ground (arith, same, has-without bs v x))
  | inr e ↦ elim (Bool-cases (s == x)) [
    | inl f ↦
        let apart : (v == x) ≡ false =
          ap (λ t. v == t) (sym ((eq_iff s x).0 f)) ∙ eq_flip v s ∙ e in
        rw (e) (ground (arith, f, apart))
    | inr f ↦ rw (e) (ground (arith, f, has-without bs v x))
  ]
]

removed-members :
    (s : Slot) (k v : String) (w : Slots) (j x : String)
    → w k ≡ s
    → has_in ((removed s k (some v) w).1 j) x ≡ (has_in (w j) x && not (k == j && v == x))
removed-members free k v w j x h = elim (Bool-cases (k == j)) [
  | inl e ↦ rw (e, at_same k j w free h e) refl
  | inr e ↦ rw (e) (ground arith)
]
removed-members (bytes b) k v w j x h = elim (Bool-cases (k == j)) [
  | inl e ↦ rw (e, at_same k j w (bytes b) h e) refl
  | inr e ↦ rw (e) (ground arith)
]
removed-members (members bs) k v w j x h = elim (Bool-cases (k == j)) [
  | inl e ↦
      rw (e, at_same k j w (members bs) h e, has-members_or_free (without bs (some v)) x)
        (has-without bs v x)
  | inr e ↦ rw (e) (ground arith)
]

client-laws : ClientLaws bytes_codec redis entry_at is_member
client-laws = record {
  get_lem = λ k w. refl;
  mget_lem = λ ks w. refl;
  setex_ok = λ k t b w p. (true, refl);
  entry-setex = λ k t b w j p. entry-write k (bytes b) w j;
  member-setex = λ k t b w j x p. has-write-free k (bytes b) w j x refl;
  delete_lem = λ k w. refl;
  entry-delete = λ k w j. entry-write k free w j;
  member-delete = λ k w j x. has-write-free k free w j x refl;
  exists_lem = λ k w. refl;
  sadd_lem = λ k v w. added-count (w k) k v w;
  entry-sadd = λ k v w j. added-entry (w k) k v w j;
  member-sadd = λ k v w j x. added-members (w k) k v w j x refl;
  srem_lem = λ k v w. removed-count (w k) k v w;
  entry-srem = λ k v w. removed-entry (w k) k v w refl;
  member-srem = λ k v w j x. removed-members (w k) k v w j x refl;
  expire_lem = λ k t w p. refl;
  entry-expire = λ k t w j p. refl;
  member-expire = λ k t w j x p. refl;
}

-- A text, a set, and bytes that are no UTF-8.
abbrev three_keys : Slots
three_keys =
    write "text" (bytes (some (codec.dumps (field "a" (str "b") end))))
      (write "set" (members (some "x" ∷ [])) (write "garbled" (bytes none) (λ k. free)))

abbrev keys : List String
keys = "set" ∷ "text" ∷ "garbled" ∷ "missing" ∷ []

get_many_json_lem_example :
    get_many_json bytes_codec redis keys three_keys
    ≡ (ok (map (λ k. value_or_none (get_json bytes_codec redis k three_keys).0) keys), three_keys)
get_many_json_lem_example =
    get_many_json_lem bytes_codec redis bytes-laws client-laws keys three_keys

redis_cache_refines_example :
    IsStore bytes_codec
      (redis_cache bytes_codec redis (pure "u") 5)
      (λ w k. view bytes_codec (entry_at w k))
      is_member
      60
redis_cache_refines_example =
    redis_cache_refines bytes_codec redis bytes-laws client-laws 60 5 (pure "u") (omega arith)
