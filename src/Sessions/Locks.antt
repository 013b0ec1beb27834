-- ===== src/Sessions/Locks.antt =====
-- apps/api/services/session_lock_manager.py. Times are in microseconds. Logging is left out.
pub mod Properties
use Prim.Native.String.{◌++◌}
use claude_agent_api.Common.{
  ℕ, zero, suc, ◌*◌, ◌-◌, String, Bool, true, false, Option, none, some, leb, min,
}
use claude_agent_api.Exec.{
  Outcome, ok, raise, timeout_error, out_of_fuel, Exec, pure, throw, catch, ◌>>=◌,
}
use claude_agent_api.Interfaces.{Cache}

-- time.monotonic(), and asyncio.sleep(d * (1 + random.uniform(-0.1, 0.1)))
pub record Timing (W : Type 0) : Type 0 where
  pub monotonic : W → ℕ
  pub sleep_about : ℕ → W → W

abbrev pub lock_initial_retry_delay : ℕ
lock_initial_retry_delay = 10000

abbrev pub lock_max_retry_delay : ℕ
lock_max_retry_delay = 500000

abbrev pub lock_key : String → String
lock_key session_id = "session_lock:" ++ session_id

module _ {W : Type 0} where
  -- One round after a failed attempt: give up when the time is over, or sleep and go on.
  pub give_up_or : Timing W → ℕ → ℕ → ℕ → Exec W String → Exec W String
  give_up_or timing start timeout delay again w = elim (leb timeout (timing.monotonic w - start)) [
    | true ↦ (raise timeout_error, w)
    | false ↦ again (timing.sleep_about delay w)
  ]

  -- The `while True` loop, with a bound on its rounds.
  unfoldable pub acquire : Timing W → Cache W → String → ℕ → ℕ → ℕ → ℕ → ℕ → Exec W String
  unfolding give_up_or
  acquire timing c key ttl start timeout zero delay = throw out_of_fuel
  acquire timing c key ttl start timeout (suc rounds) delay = do
    lock_value ← c.acquire_lock key ttl
    elim lock_value [
      | some v ↦ pure v
      | none ↦
          give_up_or timing start timeout delay
            (acquire timing c key ttl start timeout rounds (min (delay * 2) lock_max_retry_delay))
    ]

  -- finally: release the lock; what the release raises is logged and dropped
  unfoldable pub then_release : {A : Type 0} → Cache W → String → String → Exec W A → Exec W A
  then_release c key lock_value func w =
      let (result, w') = func w in
      (result, (catch (c.release_lock key lock_value) (λ _. pure false) w').1)

  unfoldable pub with_session_lock :
      {A : Type 0} → Timing W → ℕ → Option (Cache W) → String → ℕ → ℕ → Exec W A → Exec W A
  unfolding then_release
  with_session_lock timing rounds cache session_id timeout ttl func w = elim cache [
    | none ↦ func w
    | some c ↦
        (do
          lock_value ←
              acquire timing c (lock_key session_id) ttl (timing.monotonic w) timeout rounds
                lock_initial_retry_delay
          then_release c (lock_key session_id) lock_value func)
          w
  ]
