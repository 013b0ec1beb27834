-- ===== src/Witnesses/Laws.antt =====
-- The in-memory cache and database satisfy the laws that the properties rely on.
use claude_agent_api.Common.{ℕ, sym, ◌∙◌, eq_iff, String, ◌≡◌, ◌≢◌, refl, true, arith}
use claude_agent_api.Stores.{JsonLaws, HasLaws, IndexLaws, RowLaws}
use Prim.Native.String.{◌++◌}
use text.Mathlib.TextLemmas.{append_assoc, append_inj}
use claude_agent_api.Sessions.CacheManager.{cache_key, owner_index_key}
use claude_agent_api.Sessions.Locks.Properties.{ClockRuns}
use claude_agent_api.Witnesses.World.{json_at, has_key, row_at, memory, busy, table, ticking}

pub memory-JsonLaws : {ttl : ℕ} → JsonLaws memory json_at ttl has_key
memory-JsonLaws = record {
  get_json_lem = λ k w. refl;
  set_json_ok = λ k d w. refl;
  json-set_json = λ k d w j. refl;
  delete_ok = λ k w. refl;
  json-delete = λ k w j. refl;
  has_of_json = λ k w d h. rw h refl;
}

pub memory-HasLaws : HasLaws memory json_at has_key
memory-HasLaws = record { has-remove_from_set = λ k v w j h. refl }

pub memory-IndexLaws : {ttl : ℕ} → IndexLaws memory json_at ttl
memory-IndexLaws = record {
  add_to_set_ok = λ k v w. (true, refl);
  json-add_to_set = λ k v w j. refl;
  expire_ok = λ k w. (true, refl);
  json-expire = λ k w j. refl;
  remove_from_set_ok = λ k v w. (true, refl);
  json-remove_from_set = λ k v w j. refl;
}

pub table-RowLaws : RowLaws memory table json_at row_at
table-RowLaws = record {
  get_row_lem = λ u w. refl;
  delete_row_ok = λ u w. (true, refl);
  row-delete_row = λ u w v. refl;
  json-delete_row = λ u w j. refl;
  row-delete = λ k w u. refl;
  row-remove_from_set = λ k v w u. refl;
}

pub busy-ClockRuns : ClockRuns ticking busy "session_lock:s1" 300
busy-ClockRuns = record {
  sleep_advances = λ d w. omega arith;
  attempt_keeps = λ w. omega arith;
  attempt_fueled = λ w h. ground (arith, h);
}

prefixes-differ : ◌≢◌ {A = String} "session:o" "session:s"
prefixes-differ h = ground (arith, (eq_iff "session:o" "session:s").1 h)

-- The key of an owner's index is not the key of the session "s1".
pub owner_index_key-apart : (x : String) → owner_index_key x ≢ cache_key "s1"
owner_index_key-apart x h =
    let halves : "session:o" ++ ("wner:" ++ x) ≡ "session:s" ++ "1" =
      sym (append_assoc "session:o" "wner:" x) ∙ h in
    prefixes-differ
      (append_inj {s₁ = "session:o"} {s₂ = "session:s"} {t₁ = "wner:" ++ x} {t₂ = "1"} halves
        refl).0
