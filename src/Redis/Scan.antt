-- ===== src/Redis/Scan.antt =====
-- apps/api/adapters/cache.py: `scan_keys`, on a bound on the rounds of its loop, and the adapter as
-- the `Cache` of the services. The test for unbounded patterns only decides on a warning.
use claude_agent_api.Common.{
  All-take, All-append, ℕ, zero, suc, ◌≤◌, ◌<◌, String, ◌≡◌, ◌⊎◌, ◌≢◌, refl, Bool, true, false,
  none, List, [], ◌∷◌, ◌++◌, map, take, length, length-take, All, arith, leb, ltb, ◌=ℕ◌, inl, inr,
  Bool-cases,
}
use claude_agent_api.Exec.{
  Exec, Outcome, ok, raise, value_error, out_of_fuel, pure, throw, lift, ◌>>=◌,
}
use claude_agent_api.Interfaces.{Cache}
use claude_agent_api.Redis.Client.{Codec, CodecLaws, RedisClient}
use claude_agent_api.Redis.Adapter.{
  get_text, get_json, get_many_json, cache_set, set_json, delete, exists, add_to_set,
  remove_from_set, set_members, acquire_lock, release_lock, expire, decode_all,
}

module _ {W B : Type 0} (codec : Codec B) (client : RedisClient W B) where
  -- The end of a round: the limit is reached, the scan is over, or it goes on.
  pub stop_or : ℕ → List String → ℕ → Exec W (List String) → Exec W (List String)
  stop_or max_keys found next again w = elim (leb max_keys (length found)) [
    | true ↦ (ok found, w)
    | false ↦ elim (next =ℕ 0) [ true ↦ (ok found, w) | false ↦ again w ]
  ]

  -- The `while True` loop.
  unfoldable pub scan_loop : String → ℕ → ℕ → ℕ → List String → Exec W (List String)
  scan_loop pattern max_keys zero cursor all_keys = throw out_of_fuel
  scan_loop pattern max_keys (suc rounds) cursor all_keys = do
    (next, keys) ← client.scan cursor pattern 1000
    batch ← lift (decode_all codec client keys)
    stop_or max_keys (all_keys ++ batch) next
        (scan_loop pattern max_keys rounds next (all_keys ++ batch))

  unfoldable pub scan_keys : ℕ → String → ℕ → Exec W (List String)
  scan_keys rounds pattern max_keys = elim (ltb 10000 max_keys) [
    | true ↦ throw value_error
    | false ↦ do found ← scan_loop pattern max_keys rounds 0 []; pure (take max_keys found)
  ]

  -- The adapter as the services see it.
  abbrev pub redis_cache : Exec W String → ℕ → Cache W
  redis_cache uuid4 rounds = record {
    get_text = get_text codec client;
    cache_set = cache_set codec client;
    delete = delete codec client;
    exists = exists codec client;
    expire = expire codec client;
    add_to_set = add_to_set codec client;
    remove_from_set = remove_from_set codec client;
    set_members = set_members codec client;
    acquire_lock = λ key ttl. acquire_lock codec client uuid4 key ttl none;
    release_lock = release_lock codec client;
    scan_keys = scan_keys rounds;
    get_json = get_json codec client;
    get_many_json = get_many_json codec client;
    set_json = set_json codec client;
  }

  -- SCAN gives keys that match the pattern, and comes to an end: `rounds_left` counts the calls
  -- that are left from a cursor.
  pub record ScanLaws (matches : String → String → Bool) (rounds_left : ℕ → W → ℕ) : Type 0 where
    pub scan_lem :
        (cursor : ℕ) (pattern : String) (count : ℕ) (w : W)
        → (next : ℕ) × (keys : List String) × ((client.scan cursor pattern count w).0
            ≡ ok (next, map codec.encode keys))
          × All (λ k. matches pattern k ≡ true) keys
          × ((next ≡ 0)
              ⊎ (rounds_left next (client.scan cursor pattern count w).1 < rounds_left cursor w))

  module _ (laws : CodecLaws codec) {matches : String → String → Bool} {rounds_left : ℕ → W → ℕ}
      (scans : ScanLaws matches rounds_left) where
    pub decode_all-encode :
        (ss : List String) → decode_all codec client (map codec.encode ss) ≡ ok ss
    unfolding decode_all
    decode_all-encode [] = refl
    decode_all-encode (s ∷ ss) = rw (laws.decode-encode s, decode_all-encode ss) refl

    abbrev Finds : String → Outcome (List String) → Type 0
    Finds pattern o =
        (found : List String) × (o ≡ ok found) × All (λ k. matches pattern k ≡ true) found

    stop_or_lem :
        (pattern : String) (max_keys : ℕ) (found : List String) (next : ℕ)
        (again : Exec W (List String)) (w : W)
        → All (λ k. matches pattern k ≡ true) found
        → (next ≢ 0 → Finds pattern (again w).0)
        → Finds pattern (stop_or max_keys found next again w).0
    unfolding stop_or
    stop_or_lem pattern max_keys found next again w good rest =
        elim (Bool-cases (leb max_keys (length found))) [
          | inl full ↦ rw (stop_or, full) (found, refl, good)
          | inr more ↦ elim (Bool-cases (next =ℕ 0)) [
            | inl last ↦ rw (stop_or, more, last) (found, refl, good)
            | inr not_last ↦ rw (stop_or, more, not_last) (rest (ground (arith, not_last)))
          ]
        ]

    scan_loop_lem :
        (pattern : String) (max_keys rounds cursor : ℕ) (acc : List String) (w : W)
        → rounds_left cursor w < rounds
        → All (λ k. matches pattern k ≡ true) acc
        → Finds pattern (scan_loop pattern max_keys rounds cursor acc w).0
    unfolding scan_loop ◌>>=◌
    scan_loop_lem pattern max_keys zero cursor acc w enough ok_so_far =
        absurd (omega (arith, enough))
    scan_loop_lem pattern max_keys (suc rounds) cursor acc w enough ok_so_far =
        let (next, keys, scanned, good, ends) = scans.scan_lem cursor pattern 1000 w in
        let all = All-append (λ k. matches pattern k ≡ true) acc keys ok_so_far good in
        let w' = (client.scan cursor pattern 1000 w).1 in
        let again = scan_loop pattern max_keys rounds next (acc ++ keys) in
        rw (scanned, decode_all-encode keys)
          (stop_or_lem pattern max_keys (acc ++ keys) next again w' all (λ go_on.
            scan_loop_lem pattern max_keys rounds next (acc ++ keys) w'
              (ground (arith, ends, go_on, enough)) all))

    -- With a bound above the calls that SCAN has left from its start, `scan_keys` returns: a limit
    -- over 10000 raises ValueError at once, and any other gives a list of no more keys than the
    -- limit, each of which matches the pattern.
    pub scan_keys_lem :
        (pattern : String) (max_keys rounds : ℕ) (w : W)
        → rounds_left 0 w < rounds
        → ((10000 < max_keys) × (scan_keys rounds pattern max_keys w ≡ (raise value_error, w)))
          ⊎ ((max_keys ≤ 10000)
              × ((found : List String) × ((scan_keys rounds pattern max_keys w).0 ≡ ok found)
                  × (length found ≤ max_keys)
                  × All (λ k. matches pattern k ≡ true) found))
    unfolding scan_keys ◌>>=◌
    scan_keys_lem pattern max_keys rounds w enough = elim (Bool-cases (ltb 10000 max_keys)) [
      | inl big ↦ inl (ground arith, rw (scan_keys, big) refl)
      | inr small ↦
          let (all, returned, good) = scan_loop_lem pattern max_keys rounds 0 [] w enough tt in
          inr (
            ground arith,
            rw (scan_keys, small, returned)
                (
                  take max_keys all,
                  refl,
                  omega (arith, length-take max_keys all),
                  All-take (λ k. matches pattern k ≡ true) max_keys all good,
                ),
          )
    ]
