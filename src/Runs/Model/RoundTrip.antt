-- ===== src/Runs/Model/RoundTrip.antt =====
-- What the cache keeps of a run.
use claude_agent_api.Common.{◌≡◌, refl, some}
use claude_agent_api.Exec.{ok}
use claude_agent_api.Payload.{payload_laws, NonemptyStr, NonemptyDict}
use claude_agent_api.Runtime.{Runtime}
use claude_agent_api.Runs.Model.{
  Run, RunStatus, queued, status_text, parse_status, run_payload, parse_cached_run,
}

pub parse_status-status_text : (s : RunStatus) → parse_status (status_text s) ≡ s
unfolding parse_status status_text
parse_status-status_text queued = refl
parse_status-status_text _ = refl

-- The optional texts and dicts of a run are not empty: the payload does not keep an empty one.
pub record IsKept (r : Run) : Type 0 where
  pub instructions : NonemptyStr r.instructions
  pub required_action : NonemptyDict r.required_action
  pub last_error : NonemptyDict r.last_error
  pub usage : NonemptyDict r.usage

-- Parsing the payload written for a run gives back that run, every field of it, if its optional
-- texts and dicts are not empty.
pub parse_cached_run-run_payload :
    (rt : Runtime) (r : Run) → IsKept r → parse_cached_run rt (run_payload r) ≡ ok (some r)
unfolding parse_cached_run run_payload
parse_cached_run-run_payload rt r kept =
    simp
      (
        payload_laws, parse_status-status_text, kept.instructions, kept.required_action,
        kept.last_error, kept.usage,
      )
      refl
