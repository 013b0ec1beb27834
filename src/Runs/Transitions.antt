-- ===== src/Runs/Transitions.antt =====
-- The state machine of a run, over any sequence of operations.
use claude_agent_api.Common.{◌∙◌, String, ◌≡◌, ◌≢◌, refl, Option, none, some, List, [], ◌∷◌, arith}
use claude_agent_api.Common.Int.{ℤ}
use claude_agent_api.Json.{Dict}
use claude_agent_api.Runs.Model.{
  Run, requires_action, cancelling, cancelled, failed, completed, expired,
}
use claude_agent_api.Runs.Service.{started, finished, broken, aborted, waiting, resumed, new_run}

-- The operations of `RunService` on a run, with their arguments.
pub data Operation : Type 0 where
  start : ℤ → Operation
  complete : ℤ → Option Dict → Operation
  fail : ℤ → Dict → Operation
  cancel : ℤ → Operation
  require : List Dict → Operation
  submit : Operation

unfoldable pub perform : Operation → Run → Option Run
perform (start now) = started now
perform (complete now usage) = finished now usage
perform (fail now error) = broken now error
perform (cancel now) = aborted now
perform (require tool_calls) = waiting tool_calls
perform submit = resumed

abbrev or_same : Run → Option Run → Run
or_same r none = r
or_same r (some r') = r'

-- An operation that is refused leaves the run.
unfoldable pub run_all : List Operation → Run → Run
run_all [] r = r
run_all (o ∷ os) r = run_all os (or_same r (perform o r))

-- What the status says of the other fields.
pub record IsConsistent (r : Run) : Type 0 where
  pub awaits : r.status ≡ requires_action → r.required_action ≢ none
  pub was_cancelled : r.status ≡ cancelled → r.cancelled_at ≢ none
  pub was_completed : r.status ≡ completed → r.completed_at ≢ none
  pub was_failed : r.status ≡ failed → r.failed_at ≢ none
  pub has_error : r.status ≡ failed → r.last_error ≢ none
  pub not_cancelling : r.status ≢ cancelling
  pub not_expired : r.status ≢ expired

perform-IsConsistent :
    (o : Operation) (r : Run) → IsConsistent r → IsConsistent (or_same r (perform o r))
unfolding perform started finished broken aborted waiting resumed
perform-IsConsistent (start now) r h = ground arith
perform-IsConsistent (complete now usage) r h = ground arith
perform-IsConsistent (fail now error) r h = ground arith
perform-IsConsistent (cancel now) r h = ground arith
perform-IsConsistent (require calls) r h = ground arith
perform-IsConsistent submit r h = ground arith

run_all-IsConsistent :
    (os : List Operation) (r : Run) → IsConsistent r → IsConsistent (run_all os r)
unfolding run_all
run_all-IsConsistent [] r h = h
run_all-IsConsistent (o ∷ os) r h =
    run_all-IsConsistent os (or_same r (perform o r)) (perform-IsConsistent o r h)

-- After any operations on a new run its fields agree with its status: a run that waits has a
-- required action, one that has ended has the time and, if it failed, the error. The statuses
-- `cancelling` and `expired` are never reached.
pub new_run-IsConsistent :
    (id : String) (now : ℤ) (thread assistant model : String) (instructions : Option String)
    (tools : Option (List Dict)) (metadata : Option (List (String × String))) (os : List Operation)
    → IsConsistent (run_all os (new_run id now thread assistant model instructions tools metadata))
unfolding new_run
new_run-IsConsistent id now thread assistant model instructions tools metadata os =
    run_all-IsConsistent os _ (ground arith)

-- The fields that no operation touches.
abbrev pub Identity : Type 0
Identity =
    String × String × String × ℤ × String × Option String × List Dict × List (String × String)

abbrev pub identity : Run → Identity
identity r =
    (r.id, r.thread_id, r.assistant_id, r.created_at, r.model, r.instructions, r.tools, r.metadata)

perform-identity : (o : Operation) (r : Run) → identity (or_same r (perform o r)) ≡ identity r
unfolding perform started finished broken aborted waiting resumed
perform-identity (start now) r = ground arith
perform-identity (complete now usage) r = refl
perform-identity (fail now error) r = refl
perform-identity (cancel now) r = ground arith
perform-identity (require calls) r = refl
perform-identity submit r = ground arith

-- No sequence of operations changes a run's ids, its time of creation, its model, instructions,
-- tools or metadata.
pub run_all-identity : (os : List Operation) (r : Run) → identity (run_all os r) ≡ identity r
unfolding run_all
run_all-identity [] r = refl
run_all-identity (o ∷ os) r = run_all-identity os (or_same r (perform o r)) ∙ perform-identity o r
