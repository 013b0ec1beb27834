-- ===== src/Agent/Tracker.antt =====
-- apps/api/services/agent/session_tracker.py and session_control.py: the markers of active and of
-- interrupted sessions. Logging is left out, and with it what `submit_answer` and
-- `update_permission_mode` do beyond their check.
use Prim.Native.String.{◌++◌}
use claude_agent_api.Common.{ℕ, String, Bool, true, false, Option, none, some}
use claude_agent_api.Exec.{Exec, pure, throw, runtime_error, ◌>>=◌}
use claude_agent_api.Interfaces.{Cache}

pub record AgentSessionTracker (W : Type 0) : Type 0 where
  pub cache : Option (Cache W)
  pub session_ttl : ℕ
  pub interrupt_ttl : ℕ

abbrev pub active_key : String → String
active_key session_id = "active_session:" ++ session_id

abbrev pub interrupt_key : String → String
interrupt_key session_id = "interrupted:" ++ session_id

module _ {W : Type 0} (tracker : AgentSessionTracker W) where
  -- Every operation needs a cache.
  with_cache : {A : Type 0} → (Cache W → Exec W A) → Exec W A
  with_cache use_cache = elim tracker.cache [ none ↦ throw runtime_error | some c ↦ use_cache c ]

  unfoldable pub register : String → Exec W (Unit {0})
  unfolding with_cache
  register session_id =
      with_cache
        (λ c. do _ ← c.cache_set (active_key session_id) "true" (some tracker.session_ttl); pure tt)

  unfoldable pub is_active : String → Exec W Bool
  unfolding with_cache
  is_active session_id = with_cache (λ c. c.exists (active_key session_id))

  unfoldable pub unregister : String → Exec W (Unit {0})
  unfolding with_cache
  unregister session_id = with_cache (λ c. do _ ← c.delete (active_key session_id); pure tt)

  unfoldable pub is_interrupted : String → Exec W Bool
  unfolding with_cache
  is_interrupted session_id = with_cache (λ c. c.exists (interrupt_key session_id))

  unfoldable pub mark_interrupted : String → Exec W (Unit {0})
  unfolding with_cache
  mark_interrupted session_id = with_cache (λ c. do
    _ ← c.cache_set (interrupt_key session_id) "true" (some tracker.interrupt_ttl)
    pure tt)

  -- `SessionControl`
  unfoldable pub require_active : String → Exec W Bool
  require_active session_id = is_active session_id

  unfoldable pub interrupt : String → Exec W Bool
  interrupt session_id = do
    active ← require_active session_id
    elim active [ true ↦ do _ ← mark_interrupted session_id; pure true | false ↦ pure false ]

  unfoldable pub submit_answer : String → String → Exec W Bool
  submit_answer session_id answer = require_active session_id

  unfoldable pub update_permission_mode : String → String → Exec W Bool
  update_permission_mode session_id permission_mode = require_active session_id
