-- ===== src/Agent/Signals.antt =====
-- What the markers tell.
use claude_agent_api.Common.{
  ℕ, String, ◌≡◌, ◌⊎◌, Bool, true, false, some, arith, eq_refl, ◌==◌, if◌then◌else◌, Bool-cases,
  inl, inr,
}
use claude_agent_api.Exec.{ok, ◌>>=◌}
use claude_agent_api.Interfaces.{Cache}
use claude_agent_api.Agent.Tracker.{
  AgentSessionTracker, active_key, interrupt_key, register, is_active, unregister, is_interrupted,
  mark_interrupted, require_active, interrupt,
}

-- What the markers rely on: a key is there after a write and gone after a delete.
pub record MarkerLaws {W : Type 0} (c : Cache W) (has_key : W → String → Bool) : Type 0 where
  pub exists_lem : (k : String) (w : W) → c.exists k w ≡ (ok (has_key w k), w)
  pub write_ok : (k t : String) (ttl : ℕ) (w : W) → (c.cache_set k t (some ttl) w).0 ≡ ok true
  pub has-write :
      (k t : String) (ttl : ℕ) (w : W) (j : String)
      → has_key (c.cache_set k t (some ttl) w).1 j ≡ (if k == j then true else has_key w j)
  pub remove_ok : (k : String) (w : W) → (b : Bool) × ((c.delete k w).0 ≡ ok b)
  pub has-remove :
      (k : String) (w : W) (j : String)
      → has_key (c.delete k w).1 j ≡ (if k == j then false else has_key w j)

module _ {W : Type 0} (tracker : AgentSessionTracker W) (c : Cache W) {has_key : W → String → Bool}
    (laws : MarkerLaws c has_key) where
  abbrev pub over : AgentSessionTracker W
  over = record tracker { cache = some c }

  -- In a cache that answers: a session that was registered is active, and one that was
  -- unregistered is not, whatever happened before.
  pub register-unregister :
      (s : String) (w : W)
      → let w1 = (register over s w).1 in
        let w2 = (unregister over s w1).1 in
        (is_active over s w1 ≡ (ok true, w1)) × (is_active over s w2 ≡ (ok false, w2))
  unfolding register unregister is_active ◌>>=◌
  register-unregister s w =
      let k = active_key s in
      let w1 = (c.cache_set k "true" (some tracker.session_ttl) w).1 in
      let w2 = (c.delete k w1).1 in
      ground (
        arith,
        laws.write_ok k "true" tracker.session_ttl w,
        laws.has-write k "true" tracker.session_ttl w k,
        laws.exists_lem k w1,
        laws.remove_ok k w1,
        laws.has-remove k w1 k,
        laws.exists_lem k w2,
        eq_refl k,
      )

  -- An interrupt of an active session, through a cache that answers, is accepted, and it arrives:
  -- the session is seen to be interrupted, and it is still active. An interrupt of any other
  -- session is answered False and changes nothing.
  pub interrupt_arrives :
      (s : String) (w : W)
      → let (r, w') = interrupt over s w in
        ((is_active over s w ≡ (ok true, w))
          × (r ≡ ok true)
          × (is_interrupted over s w' ≡ (ok true, w'))
          × (is_active over s w' ≡ (ok true, w')))
        ⊎ ((is_active over s w ≡ (ok false, w)) × (r ≡ ok false) × (w' ≡ w))
  unfolding interrupt require_active mark_interrupted is_active is_interrupted ◌>>=◌
  interrupt_arrives s w =
      let k = interrupt_key s in
      let a = active_key s in
      let w1 = (c.cache_set k "true" (some tracker.interrupt_ttl) w).1 in
      elim (Bool-cases (has_key w a)) [
        | inl e ↦ inl (
            ground (
              arith,
              e,
              laws.exists_lem a w,
              laws.write_ok k "true" tracker.interrupt_ttl w,
              laws.has-write k "true" tracker.interrupt_ttl w k,
              laws.has-write k "true" tracker.interrupt_ttl w a,
              laws.exists_lem k w1,
              laws.exists_lem a w1,
              eq_refl k,
            ))
        | inr e ↦ inr (ground (arith, e, laws.exists_lem a w))
      ]
