-- ===== src/Runs/Executor/Outcomes.antt =====
-- How an execution ends, when the assistant exists and the other services leave the run alone.
use claude_agent_api.Common.{
  ◌⊎◌, inr, inl, ◌∙◌, String, ◌≡◌, refl, Bool, Option, none, some, List, arith,
}
use claude_agent_api.Common.Int.{ℤ}
use claude_agent_api.Exec.{Outcome, ok, raise, ◌>>=◌}
use claude_agent_api.Json.{Dict}
use claude_agent_api.Interfaces.{Cache}
use claude_agent_api.Runtime.{Runtime}
use claude_agent_api.Payload.{NonemptyDict}
use claude_agent_api.Stores.{JsonLaws}
use claude_agent_api.Runs.Model.{Run, RunStatus, in_progress, failed}
use claude_agent_api.Runs.Model.RoundTrip.{IsKept}
use claude_agent_api.Runs.Service.{
  start_run, submit_tool_outputs, resumed, started, RunService, cache_key, change_run, broken,
  fail_run,
}
use claude_agent_api.Runs.Stored.{change_run-Holds, change_run-refused, QuietRepo, over, Holds}
use claude_agent_api.Runs.Executor.Settling.{
  settle_lem, change_run-Leads, broken-Leads, EndsIn, end_status, reply, Answering,
}
use claude_agent_api.Runs.Executor.{
  submit_outputs, execute_run, ExecutionResult, Services, execution_error, attempt, with_assistant,
  go_on,
}

module _ {W : Type 0} (rt : Runtime) (svc : RunService W) (c : Cache W)
    {json_at : W → String → Option Dict} {has_key : W → String → Bool}
    (laws : JsonLaws c json_at svc.ttl has_key) (quiet : QuietRepo json_at svc.db_repo)
    (services : Services W) where
  with_assistant_lem :
      (answer : Outcome ExecutionResult) (outputs : Option (List Dict)) (id : String) (r : Run)
      (w : W)
      → IsKept r
      → Answering json_at services answer (cache_key r.thread_id r.id)
      → Holds rt svc c laws w r
      → let (o, w') =
          with_assistant rt (over rt svc c laws) services r.thread_id r.id r outputs (some id) w in
        (o ≡ ok (reply answer))
        × EndsIn rt svc c laws quiet services r.thread_id r.id w' (end_status answer)
  unfolding with_assistant attempt fail_run ◌>>=◌
  with_assistant_lem (ok result) outputs id r w h answering holds =
      let u = (services.execute_with_sdk r.thread_id r id outputs w).1 in
      let (settled, ends) =
        settle_lem rt svc c laws quiet services result result.tool_calls id r u h answering
          (answering.answered-json r.thread_id r id outputs w ∙ holds) in
      rw (answering.answered r.thread_id r id outputs w, settled) (refl, ends)
  with_assistant_lem (raise e) outputs id r w h answering holds =
      let u = (services.execute_with_sdk r.thread_id r id outputs w).1 in
      let ((r', changed), read) =
        change_run-Leads rt svc c laws quiet services
          (broken (services.now u) (execution_error (services.text_of e))) r failed u
          (broken-Leads rt svc c laws quiet services (services.now u) (services.text_of e) r h) h
          (answering.answered-json r.thread_id r id outputs w ∙ holds) in
      rw (answering.answered r.thread_id r id outputs w, changed) (refl, read)

  go_on_lem :
      (answer : Outcome ExecutionResult) (outputs : Option (List Dict)) (r : Run) (w : W)
      → IsKept r
      → Answering json_at services answer (cache_key r.thread_id r.id)
      → Holds rt svc c laws w r
      → let (o, w') = go_on rt (over rt svc c laws) services r.thread_id r.id outputs (some r) w in
        (o ≡ ok (reply answer))
        × EndsIn rt svc c laws quiet services r.thread_id r.id w' (end_status answer)
  unfolding go_on ◌>>=◌
  go_on_lem answer outputs r w h answering holds = rw (answering.found r.assistant_id w) (
      with_assistant_lem answer outputs r.assistant_id r (services.get_assistant r.assistant_id w).1
        h answering (answering.found-json r.assistant_id w ∙ holds))

  abbrev moved : Run → RunStatus → Option ℤ → Option Dict → Run
  moved r s at action = record r { status = s; started_at = at; required_action = action }

  -- A change of a few fields, or one that is refused.
  abbrev Moves : (Run → Option Run) → Run → Type 0
  Moves change r =
      (change r ≡ none)
      ⊎ (s : RunStatus) × (at : Option ℤ) × (action : Option Dict) × (change r
          ≡ some (moved r s at action))
        × NonemptyDict action

  then_go_on :
      (change : Run → Option Run) (answer : Outcome ExecutionResult) (outputs : Option (List Dict))
      (r : Run) (w : W)
      → Moves change r
      → IsKept r
      → Answering json_at services answer (cache_key r.thread_id r.id)
      → Holds rt svc c laws w r
      → let (o, w') =
          (change_run rt (over rt svc c laws) r.thread_id r.id change
              >>= go_on rt (over rt svc c laws) services r.thread_id r.id outputs)
            w in
        (o ≡ ok (reply answer))
        × EndsIn rt svc c laws quiet services r.thread_id r.id w' (end_status answer)
  unfolding ◌>>=◌
  then_go_on change answer outputs r w (inl refused) h answering holds =
      rw (change_run-refused rt svc c laws change r w h holds refused)
        (go_on_lem answer outputs r w h answering holds)
  then_go_on change answer outputs r w (inr (s, at, action, passed, nonempty)) h answering holds =
      let r' = moved r s at action in
      let (changed, holds') = change_run-Holds rt svc c laws quiet change r r' w h holds passed in
      let u = (change_run rt (over rt svc c laws) r.thread_id r.id change w).1 in
      rw (changed) (
        go_on_lem answer outputs r' u
          (record {
            instructions = h.instructions;
            required_action = nonempty;
            last_error = h.last_error;
            usage = h.usage;
          })
          answering holds')

  started-cases :
      (now : ℤ) (r : Run)
      → (started now r ≡ none)
        ⊎ (started now r ≡ some (moved r in_progress (some now) r.required_action))
  unfolding started
  started-cases now r = ground arith

  resumed-cases :
      (r : Run) → (resumed r ≡ none) ⊎ (resumed r ≡ some (moved r in_progress r.started_at none))
  unfolding resumed
  resumed-cases r = ground arith

  started-Moves : (now : ℤ) (r : Run) → IsKept r → Moves (started now) r
  started-Moves now r h = elim (started-cases now r) [
    | inl refused ↦ inl refused
    | inr passed ↦ inr (in_progress, some now, r.required_action, passed, h.required_action)
  ]

  resumed-Moves : (r : Run) → Moves resumed r
  resumed-Moves r = elim (resumed-cases r) [
    | inl refused ↦ inl refused
    | inr passed ↦ inr (in_progress, r.started_at, none, passed, tt)
  ]

  -- Suppose that the cache answers and holds the run, with no optional text or dict empty, that
  -- the assistant exists, that a message can be written, and that neither these services nor the
  -- database's updates change the run's entry. Then, however the SDK answers, an execution returns
  -- that answer (None if the SDK raised), and a later read of the run finds it `failed` if the SDK
  -- raised, in `requires_action` if the answer has tool calls, else `completed`. The status that the run had
  -- does not matter: if it was not `queued`, so that `start_run` refused, the run is executed all
  -- the same; and so is one that was not waiting, when tool outputs are submitted.
  pub execute_run-ends :
      (answer : Outcome ExecutionResult) (outputs : List Dict) (r : Run) (w : W)
      → IsKept r
      → Answering json_at services answer (cache_key r.thread_id r.id)
      → Holds rt svc c laws w r
      → (let (o, w') = execute_run rt (over rt svc c laws) services r.thread_id r.id w in
          (o ≡ ok (reply answer))
          × EndsIn rt svc c laws quiet services r.thread_id r.id w' (end_status answer))
        × (let (o, w') =
              submit_outputs rt (over rt svc c laws) services r.thread_id r.id outputs w in
            (o ≡ ok (reply answer))
            × EndsIn rt svc c laws quiet services r.thread_id r.id w' (end_status answer))
  unfolding execute_run start_run submit_outputs submit_tool_outputs ◌>>=◌
  execute_run-ends answer outputs r w h answering holds = (
    then_go_on (started (services.now w)) answer none r w (started-Moves _ r h) h answering holds,
    then_go_on resumed answer (some outputs) r w (resumed-Moves r) h answering holds,
  )
