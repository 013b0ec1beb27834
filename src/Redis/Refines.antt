-- ===== src/Redis/Refines.antt =====
-- The adapter over a Redis client, as a store of texts, payloads and sets under keys.
use claude_agent_api.Common.{
  ◌∙◌, sym, ◌<◌, ℕ, String, ◌≡◌, refl, ap, Bool, true, false, not, ◌&&◌, ◌||◌, Option, none, some,
  List, [], ◌∷◌, map, ◌==◌, Bool-cases, inl, inr, if◌then◌else◌, eq_refl, ltb,
}
use claude_agent_api.Exec.{pure, Exec, Outcome, ok, raise, ◌>>=◌, ◌>>=?◌}
use claude_agent_api.Json.{Dict}
use claude_agent_api.Redis.Client.{
  Codec, CodecLaws, RedisClient, ClientLaws, Entry, nothing, text_entry, set_entry, is_text,
  is_there, got, row_of, for_set,
}
use claude_agent_api.Redis.Adapter.{
  decoded, parsed, parse_row, get_text, get_json, get_many_json, cache_set, set_json, delete,
  exists, add_to_set, remove_from_set, expire,
}
use claude_agent_api.Redis.Scan.{redis_cache}
use claude_agent_api.Redis.Store.{value_or_none, view, read_text, read_json, IsStore}

module _ {W B : Type 0} (codec : Codec B) (client : RedisClient W B)
    {entry_at : W → String → Entry B} {is_member : W → String → String → Bool}
    (codes : CodecLaws codec) (laws : ClientLaws codec client entry_at is_member) where
  abbrev pub viewed : W → String → Entry (Outcome String)
  viewed w k = view codec (entry_at w k)

  get_text-entry :
      (e : Entry B) (k : String) (w : W)
      → client.get k w ≡ (got e, w)
      → get_text codec client k w ≡ (read_text (view codec e), w)
  unfolding get_text ◌>>=◌ decoded
  get_text-entry nothing k w h = rw (h) refl
  get_text-entry (text_entry b) k w h = rw (h) refl
  get_text-entry set_entry k w h = rw (h) refl

  get_text_lem : (k : String) (w : W) → get_text codec client k w ≡ (read_text (viewed w k), w)
  get_text_lem k w = get_text-entry (entry_at w k) k w (laws.get_lem k w)

  get_json-text :
      (t : Outcome (Option String)) (k : String) (w : W)
      → get_text codec client k w ≡ (t, w)
      → get_json codec client k w ≡ (
        (t >>=? λ u. elim u [
          | none ↦ ok none
          | some s ↦ ok (if codec.strip s == "" then none else codec.loads s)
        ]),
        w,
      )
  unfolding get_json ◌>>=◌ parsed
  get_json-text (ok none) k w h = rw (h) refl
  get_json-text (ok (some s)) k w h = rw (h) refl
  get_json-text (raise e) k w h = rw (h) refl

  pub get_json_lem :
      (k : String) (w : W) → get_json codec client k w ≡ (read_json codec (viewed w k), w)
  get_json_lem k w = get_json-text (read_text (viewed w k)) k w (get_text_lem k w)

  parse_row-decoded :
      (b : B) (o : Outcome String)
      → codec.decode b ≡ o
      → parse_row codec client (some b) ≡ value_or_none (read_json codec (text_entry o))
  unfolding parse_row
  parse_row-decoded b (raise e) h = rw (parse_row, h) refl
  parse_row-decoded b (ok s) h = elim (Bool-cases (codec.strip s == "")) [
    | inl blank ↦ rw (parse_row, h, blank) (codes.loads_blank s blank)
    | inr filled ↦ rw (parse_row, h, filled) refl
  ]

  parse_row-row_of :
      (e : Entry B)
      → parse_row codec client (row_of e) ≡ value_or_none (read_json codec (view codec e))
  unfolding parse_row
  parse_row-row_of nothing = refl
  parse_row-row_of (text_entry b) = parse_row-decoded b (codec.decode b) refl
  parse_row-row_of set_entry = refl

  row-get_json :
      (k : String) (w : W)
      → parse_row codec client (row_of (entry_at w k)) ≡ value_or_none (get_json codec client k w).0
  row-get_json k w = rw (get_json_lem k w) (parse_row-row_of (entry_at w k))

  rows-get_json :
      (ks : List String) (w : W)
      → map (parse_row codec client) (map (λ k. row_of (entry_at w k)) ks)
        ≡ map (λ k. value_or_none (get_json codec client k w).0) ks
  rows-get_json [] w = refl
  rows-get_json (k ∷ ks) w = λ i. row-get_json k w i ∷ rows-get_json ks w i

  -- Reading many keys gives, in their order, what reading each key alone gives, and None for each
  -- key whose read alone raises: one with a set, or with bytes that are no UTF-8. The two read
  -- blank texts in different ways, to the same end.
  pub get_many_json_lem :
      (ks : List String) (w : W)
      → get_many_json codec client ks w
        ≡ (ok (map (λ k. value_or_none (get_json codec client k w).0) ks), w)
  unfolding get_many_json ◌>>=◌
  get_many_json_lem [] w = refl
  get_many_json_lem (k ∷ ks) w =
      rw (laws.mget_lem (k ∷ ks) w) (ap (λ rows. (ok rows, w)) (rows-get_json (k ∷ ks) w))

  module _ (ttl rounds : ℕ) (uuid4 : Exec W String) (pos : 0 < ttl) where
    view-if :
        (b : Bool) (e f : Entry B)
        → view codec (if b then e else f) ≡ (if b then view codec e else view codec f)
    view-if true e f = refl
    view-if false e f = refl

    is_there-view : (e : Entry B) → is_there (view codec e) ≡ is_there e
    is_there-view nothing = refl
    is_there-view (text_entry b) = refl
    is_there-view set_entry = refl

    is_text-view : (e : Entry B) → is_text (view codec e) ≡ is_text e
    is_text-view nothing = refl
    is_text-view (text_entry b) = refl
    is_text-view set_entry = refl

    ltb-there : (b : Bool) → ltb 0 (if b then 1 else 0) ≡ b
    ltb-there true = refl
    ltb-there false = refl

    ltb-absent : (b : Bool) → ltb 0 (if b then 0 else 1) ≡ not b
    ltb-absent true = refl
    ltb-absent false = refl

    -- A command that answers a count, or refuses a text.
    counted :
        (m : Exec W ℕ) (e : Entry B) (n : ℕ) (w : W)
        → (m w).0 ≡ for_set e n
        → let r = (do result ← m; pure (ltb 0 result)) w in
          (r.0 ≡ for_set (view codec e) (ltb 0 n)) × (r.1 ≡ (m w).1)
    unfolding ◌>>=◌
    counted m nothing n w h = rw (h) (refl, refl)
    counted m (text_entry b) n w h = rw (h) (refl, refl)
    counted m set_entry n w h = rw (h) (refl, refl)

    exists_lem : (k : String) (w : W) → exists codec client k w ≡ (ok (is_there (viewed w k)), w)
    unfolding exists ◌>>=◌
    exists_lem k w =
        rw (laws.exists_lem k w, ltb-there (is_there (entry_at w k)), is_there-view (entry_at w k))
          refl

    cache_set_lem :
        (k s : String) (w : W)
        → let (r, w') = cache_set codec client k s (some ttl) w in
          (r ≡ ok true)
          × ((j : String) → viewed w' j ≡ (if k == j then text_entry (ok s) else viewed w j))
          × ((j x : String) → is_member w' j x ≡ (not (k == j) && is_member w j x))
    unfolding cache_set ◌>>=◌
    cache_set_lem k s w =
        let (b, answered) = laws.setex_ok k ttl (codec.encode s) w pos in
        rw (answered) (
          refl,
          λ j.
              rw
                (
                  laws.entry-setex k ttl (codec.encode s) w j pos,
                  view-if (k == j) (text_entry (codec.encode s)) (entry_at w j),
                  codes.decode-encode s,
                )
                refl,
          λ j x. laws.member-setex k ttl (codec.encode s) w j x pos,
        )

    set_json_lem :
        (k : String) (d : Dict) (w : W)
        → let (r, w') = set_json codec client k d (some ttl) w in
          (r ≡ ok true)
          × (get_json codec client k w' ≡ (ok (some d), w'))
          × ((j : String) → viewed w' j ≡ (if k == j then viewed w' k else viewed w j))
          × ((j x : String) → is_member w' j x ≡ (not (k == j) && is_member w j x))
    unfolding set_json
    set_json_lem k d w =
        let s = codec.dumps d in
        let (done, written, members) = cache_set_lem k s w in
        let w' = (cache_set codec client k s (some ttl) w).1 in
        let there : viewed w' k ≡ text_entry (ok s) = written k ∙ rw (eq_refl k) refl in
        (
          done,
          get_json_lem k w' ∙ rw (there, codes.strip-dumps d, codes.loads-dumps d) refl,
          λ j. written j ∙ ap (λ e. if k == j then e else viewed w j) (sym there),
          members,
        )

    delete_lem :
        (k : String) (w : W)
        → let (r, w') = delete codec client k w in
          (r ≡ ok (is_there (viewed w k)))
          × ((j : String) → viewed w' j ≡ (if k == j then nothing else viewed w j))
          × ((j x : String) → is_member w' j x ≡ (not (k == j) && is_member w j x))
    unfolding delete
    delete_lem k w =
        let there = is_there (entry_at w k) in
        let (r, same) =
          counted (client.delete k) set_entry (if there then 1 else 0) w (laws.delete_lem k w) in
        rw (r, same)
          (
            rw (ltb-there there, is_there-view (entry_at w k)) refl,
            λ j. rw (laws.entry-delete k w j, view-if (k == j) nothing (entry_at w j)) refl,
            λ j x. laws.member-delete k w j x,
          )

    add_to_set_lem :
        (k v : String) (w : W)
        → let (r, w') = add_to_set codec client k v w in
          (r ≡ for_set (viewed w k) (not (is_member w k v)))
          × ((j : String)
              → viewed w' j
                ≡ (if k == j && not (is_text (viewed w k)) then set_entry else viewed w j))
          × ((j x : String)
              → is_member w' j x
                ≡ (is_member w j x || not (is_text (viewed w k)) && (k == j && v == x)))
    unfolding add_to_set
    add_to_set_lem k v w =
        let e = entry_at w k in
        let (r, same) =
          counted (client.sadd k (codec.encode v)) e (if is_member w k v then 0 else 1) w
            (laws.sadd_lem k v w) in
        rw (r, same, is_text-view e)
          (
            rw (ltb-absent (is_member w k v)) refl,
            λ j.
                rw
                  (
                    laws.entry-sadd k v w j,
                    view-if (k == j && not (is_text e)) set_entry (entry_at w j),
                  )
                  refl,
            λ j x. laws.member-sadd k v w j x,
          )

    remove_from_set_lem :
        (k v : String) (w : W)
        → let (r, w') = remove_from_set codec client k v w in
          (r ≡ for_set (viewed w k) (is_member w k v))
          × ((last : Bool) × ((last && is_text (viewed w k)) ≡ false)
              × ((j : String) → viewed w' j ≡ (if k == j && last then nothing else viewed w j)))
          × ((j x : String) → is_member w' j x ≡ (is_member w j x && not (k == j && v == x)))
    unfolding remove_from_set
    remove_from_set_lem k v w =
        let e = entry_at w k in
        let (r, same) =
          counted (client.srem k (codec.encode v)) e (if is_member w k v then 1 else 0) w
            (laws.srem_lem k v w) in
        let (last, no_text, kept) = laws.entry-srem k v w in
        rw (r, same, is_text-view e)
          (
            rw (ltb-there (is_member w k v)) refl,
            (last, no_text, λ j. rw (kept j, view-if (k == j && last) nothing (entry_at w j)) refl),
            λ j x. laws.member-srem k v w j x,
          )

    -- The Redis adapter is a store of texts, payloads and sets, over a client that answers, codecs
    -- that invert each other and a lifetime of at least a second: what it writes under a key is
    -- there, and read back, whatever was under the key, and nothing changes under the others; a
    -- read of a set or of bytes that are no UTF-8 raises, and so does a command for sets on a text,
    -- which changes nothing; a blank text and one that is no JSON is read as no payload; an
    -- addition to a set, or a removal, answers whether it changed the set; and a lifetime changes
    -- nothing.
    pub redis_cache_refines :
        IsStore codec (redis_cache codec client uuid4 rounds) viewed is_member ttl
    unfolding expire
    redis_cache_refines = record {
      get_text_lem = get_text_lem;
      get_json_lem = get_json_lem;
      exists_lem = exists_lem;
      cache_set_lem = cache_set_lem;
      set_json_lem = set_json_lem;
      delete_lem = delete_lem;
      add_to_set_lem = add_to_set_lem;
      remove_from_set_lem = remove_from_set_lem;
      expire_lem = λ k w. (
        laws.expire_lem k ttl w pos ∙ rw (is_there-view (entry_at w k)) refl,
        λ j. ap (view codec) (laws.entry-expire k ttl w j pos),
        λ j x. laws.member-expire k ttl w j x pos,
      );
    }
