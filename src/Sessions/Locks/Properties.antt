-- ===== src/Sessions/Locks/Properties.antt =====
-- The lock manager: the loop ends, and what a protected operation returns.
use claude_agent_api.Common.{
  ap, inr, inl, ◌-◌, leb, Bool-cases, Option, ℕ, zero, suc, ◌+◌, ◌≤◌, ◌<◌, ◌*◌, String, ◌≡◌, ◌≢◌,
  refl, none, some, arith, min,
}
use claude_agent_api.Exec.{◌>>=◌, ok, raise, timeout_error, out_of_fuel, Exec}
use claude_agent_api.Interfaces.{Cache}
use claude_agent_api.Sessions.Locks.{
  give_up_or, lock_initial_retry_delay, then_release, Timing, acquire, with_session_lock, lock_key,
  lock_max_retry_delay,
}
use claude_agent_api.Exec.Ensures.{Ensures, Ensures-bind}

module _ {W : Type 0} (timing : Timing W) (c : Cache W) (key : String) (ttl : ℕ) where
  -- Time goes on while the loop sleeps, and does not go back in an attempt.
  pub record ClockRuns : Type 0 where
    pub sleep_advances :
        (d : ℕ) (w : W) → timing.monotonic w < timing.monotonic (timing.sleep_about d w)
    pub attempt_keeps : (w : W) → timing.monotonic w ≤ timing.monotonic (c.acquire_lock key ttl w).1
    pub attempt_fueled : (w : W) → (c.acquire_lock key ttl w).0 ≢ raise out_of_fuel

  acquire-ends :
      ClockRuns
      → (start timeout rounds delay : ℕ) (w : W) → 0 < rounds
      → start + timeout < timing.monotonic w + rounds
      → (acquire timing c key ttl start timeout rounds delay w).0 ≢ raise out_of_fuel
  unfolding acquire ◌>>=◌
  acquire-ends runs start timeout zero delay w h k = absurd (omega arith)
  acquire-ends runs start timeout (suc rounds) delay w h k =
      let u = (c.acquire_lock key ttl w).1 in
      let again = timing.sleep_about delay u in
      ground (
        arith,
        runs.attempt_fueled w,
        runs.attempt_keeps w,
        runs.sleep_advances delay u,
        acquire-ends runs start timeout rounds (min (delay * 2) lock_max_retry_delay) again,
      )

  -- If time goes on while the loop sleeps and does not go back in an attempt, the bound `timeout +
  -- 1` on the rounds is never what ends the loop: it ends with the lock, with a timeout, or with
  -- what an attempt raised.
  pub acquire-ne-out_of_fuel :
      ClockRuns
      → (timeout delay : ℕ) (w : W)
      → (acquire timing c key ttl (timing.monotonic w) timeout (suc timeout) delay w).0
        ≢ raise out_of_fuel
  acquire-ne-out_of_fuel runs timeout delay w =
      acquire-ends runs (timing.monotonic w) timeout (suc timeout) delay w (omega arith)
        (omega arith)

  -- No attempt gives the lock.
  pub record IsTaken : Type 0 where
    pub never_given : (w : W) → (c.acquire_lock key ttl w).0 ≡ ok none

  -- A round whose attempt fails.
  acquire-taken :
      IsTaken
      → (start timeout rounds delay : ℕ) (w : W)
      → acquire timing c key ttl start timeout (suc rounds) delay w
        ≡ give_up_or timing start timeout delay
            (acquire timing c key ttl start timeout rounds (min (delay * 2) lock_max_retry_delay))
            (c.acquire_lock key ttl w).1
  unfolding acquire ◌>>=◌
  acquire-taken taken start timeout rounds delay w =
      let u = (c.acquire_lock key ttl w).1 in
      let given : c.acquire_lock key ttl w ≡ (ok none, u) =
        ap (λ r. (r, u)) (taken.never_given w) in
      rw (given) refl

  -- The loop on a lock that stays taken times out, at a time that is not before its end.
  acquire-timeout :
      ClockRuns
      → IsTaken
      → (start timeout rounds delay : ℕ) (w : W) → 0 < rounds
      → start ≤ timing.monotonic w
      → start + timeout < timing.monotonic w + rounds
      → let (r, w') = acquire timing c key ttl start timeout rounds delay w in
        (r ≡ raise timeout_error) × (start + timeout ≤ timing.monotonic w')
  unfolding give_up_or
  acquire-timeout runs taken start timeout zero delay w h i k = absurd (omega arith)
  acquire-timeout runs taken start timeout (suc rounds) delay w h i k =
      let u = (c.acquire_lock key ttl w).1 in
      let again = timing.sleep_about delay u in
      let round = acquire-taken taken start timeout rounds delay w in
      elim (Bool-cases (leb timeout (timing.monotonic u - start))) [
        | inl over ↦
            rw (round, give_up_or, over) (refl, ground (arith, over, runs.attempt_keeps w, i))
        | inr left ↦
            rw (round, give_up_or, left)
              (acquire-timeout runs taken start timeout rounds
                (min (delay * 2) lock_max_retry_delay) again
                (ground (arith, left, runs.attempt_keeps w, i, k))
                (ground (arith, runs.attempt_keeps w, runs.sleep_advances delay u, i))
                (ground (arith, runs.attempt_keeps w, runs.sleep_advances delay u, k)))
      ]

module _ {W A : Type 0} (timing : Timing W) (rounds : ℕ) (session_id : String) (timeout ttl : ℕ)
    (func : Exec W A) where
  -- Without a cache the operation runs unprotected.
  pub with_session_lock-none :
      (w : W) → with_session_lock timing rounds none session_id timeout ttl func w ≡ func w
  unfolding with_session_lock
  with_session_lock-none w = refl

  -- If the lock is free, the operation runs once, in the world the lock left; its value or its
  -- exception is the result, and the lock is then released with the value it was taken with,
  -- whatever the operation did and whether or not the release raises.
  pub with_session_lock-acquired :
      (c : Cache W) (w w' : W) (v : String)
      → c.acquire_lock (lock_key session_id) ttl w ≡ (ok (some v), w')
      → with_session_lock timing (suc rounds) (some c) session_id timeout ttl func w
        ≡ ((func w').0, (c.release_lock (lock_key session_id) v (func w').1).1)
  unfolding with_session_lock acquire ◌>>=◌
  with_session_lock-acquired c w w' v h =
      let r = c.release_lock (lock_key session_id) v (func w').1 in rw h (ground arith)

module _ {W A : Type 0} (timing : Timing W) (session_id : String) (timeout ttl : ℕ)
    (func : Exec W A) where
  -- If no attempt gives the lock, time goes on while the loop sleeps and does not go back in an
  -- attempt, then with the bound `timeout + 1` on its rounds the loop ends with `TimeoutError`, when
  -- at least the timeout has passed; the operation is not run: any other in its place leaves the
  -- same world.
  pub with_session_lock-timeout :
      (c : Cache W)
      → ClockRuns timing c (lock_key session_id) ttl
      → IsTaken timing c (lock_key session_id) ttl
      → (other : Exec W A) (w : W)
      → let (r, w') =
          with_session_lock timing (suc timeout) (some c) session_id timeout ttl func w in
        (r ≡ raise timeout_error)
        × (timing.monotonic w + timeout ≤ timing.monotonic w')
        × (with_session_lock timing (suc timeout) (some c) session_id timeout ttl other w ≡ (r, w'))
  unfolding with_session_lock ◌>>=◌
  with_session_lock-timeout c runs taken other w =
      let key = lock_key session_id in
      let start = timing.monotonic w in
      let tried = acquire timing c key ttl start timeout (suc timeout) lock_initial_retry_delay w in
      let (raised, late) =
        acquire-timeout timing c key ttl runs taken start timeout (suc timeout)
          lock_initial_retry_delay w (omega arith) (omega arith) (omega arith) in
      let ends : acquire timing c key ttl start timeout (suc timeout) lock_initial_retry_delay w
          ≡ (raise timeout_error, tried.1) =
        ap (λ r. (r, tried.1)) raised in
      rw (ends) (refl, late, refl)

-- What the operation ensures, the operation under the lock ensures.
module _ {W A : Type 0} {P : A → Type 0} where
  then_release-Ensures :
      (c : Cache W) (key v : String) (func : Exec W A)
      → Ensures P func
      → Ensures P (then_release c key v func)
  unfolding then_release
  then_release-Ensures c key v func h = record { at = λ w. h.at w }

  pub Ensures-with_session_lock :
      (timing : Timing W) (rounds : ℕ) (cache : Option (Cache W)) (session_id : String)
      (timeout ttl : ℕ) (func : Exec W A)
      → Ensures P func
      → Ensures P (with_session_lock timing rounds cache session_id timeout ttl func)
  unfolding with_session_lock
  Ensures-with_session_lock timing rounds none session_id timeout ttl func h = record {
    at = λ w. h.at w;
  }
  Ensures-with_session_lock timing rounds (some c) session_id timeout ttl func h = record {
    at = λ w.
        (Ensures-bind
            (acquire timing c (lock_key session_id) ttl (timing.monotonic w) timeout rounds
              lock_initial_retry_delay)
            (λ v. then_release c (lock_key session_id) v func)
            (λ v. then_release-Ensures c (lock_key session_id) v func h)).at
          w;
  }
