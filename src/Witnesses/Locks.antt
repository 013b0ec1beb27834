-- ===== src/Witnesses/Locks.antt =====
-- Runs of apps/api/services/session_lock_manager.py in the in-memory world.
use claude_agent_api.Common.{◌+◌, ◌≤◌, ℕ, ◌≡◌, ◌≢◌, refl, some}
use claude_agent_api.Exec.{Exec, raise, timeout_error, out_of_fuel}
use claude_agent_api.Sessions.Locks.{acquire, with_session_lock}
use claude_agent_api.Sessions.Locks.Properties.{
  IsTaken, acquire-ne-out_of_fuel, with_session_lock-timeout,
}
use claude_agent_api.Witnesses.World.{World, busy, ticking, empty, answer}
use claude_agent_api.Witnesses.Laws.{busy-ClockRuns}

acquire-ne-out_of_fuel_example :
    (acquire ticking busy "session_lock:s1" 300 (ticking.monotonic empty) 5 6 10 empty).0
    ≢ raise out_of_fuel
acquire-ne-out_of_fuel_example =
    acquire-ne-out_of_fuel ticking busy "session_lock:s1" 300 busy-ClockRuns 5 10 empty

abbrev seven : Exec World ℕ
seven = answer 7

abbrev eight : Exec World ℕ
eight = answer 8

busy-IsTaken : IsTaken ticking busy "session_lock:s1" 300
busy-IsTaken = record { never_given = λ w. refl }

with_session_lock-timeout_example :
    let (r, w') = with_session_lock ticking 3 (some busy) "s1" 2 300 seven empty in
    (r ≡ raise timeout_error)
    × (ticking.monotonic empty + 2 ≤ ticking.monotonic w')
    × (with_session_lock ticking 3 (some busy) "s1" 2 300 eight empty ≡ (r, w'))
with_session_lock-timeout_example =
    with_session_lock-timeout ticking "s1" 2 300 seven busy busy-ClockRuns busy-IsTaken eight empty
