-- ===== src/Witnesses/Runs.antt =====
-- Runs of apps/api/services/assistants/run_service.py and run_executor.py in the in-memory world.
use claude_agent_api.Common.{◌≡◌, refl, none, some, List, [], ◌∷◌}
use claude_agent_api.Common.Int.{pos}
use claude_agent_api.Exec.{ok}
use claude_agent_api.Runs.Model.{Run, queued, in_progress, completed, run_payload, parse_cached_run}
use claude_agent_api.Runs.Model.RoundTrip.{IsKept, parse_cached_run-run_payload}
use claude_agent_api.Runs.Service.{RunService, started, change_run, get_run}
use claude_agent_api.Runs.Stored.{over, change_run-changed}
use claude_agent_api.Runs.Transitions.{Operation, start, cancel, require, submit}
use claude_agent_api.Runs.Executor.{Services, ExecutionResult, execute_run, submit_outputs}
use claude_agent_api.Runs.Executor.Settling.{Answering, EndsIn}
use claude_agent_api.Runs.Executor.Outcomes.{execute_run-ends}
use claude_agent_api.Witnesses.World.{World, memory, python, empty, write_doc, json_at, answer}
use claude_agent_api.Witnesses.Laws.{memory-JsonLaws}

abbrev run_1 : Run
run_1 = record {
  id = "r1";
  thread_id = "t1";
  assistant_id = "a1";
  created_at = pos 3;
  status = queued;
  model = "sonnet";
  instructions = none;
  tools = [];
  metadata = [];
  required_action = none;
  last_error = none;
  usage = none;
  started_at = none;
  expires_at = none;
  cancelled_at = none;
  failed_at = none;
  completed_at = none;
}

-- a later run, which has been started
abbrev run_2 : Run
run_2 = record run_1 { id = "r2"; created_at = pos 8; status = in_progress }

-- the first run after its start
abbrev run_started : Run
run_started = record run_1 { status = in_progress; started_at = some (pos 9) }

abbrev run_world : World
run_world = write_doc "run:t1:r1" (some (run_payload run_1)) empty

abbrev runs : RunService World
runs = record { cache = some memory; db_repo = none; ttl = 60 }

run_1-IsKept : IsKept run_1
run_1-IsKept = record { instructions = tt; required_action = tt; last_error = tt; usage = tt }

run_started-IsKept : IsKept run_started
run_started-IsKept = record { instructions = tt; required_action = tt; last_error = tt; usage = tt }

parse_cached_run-run_payload_example : parse_cached_run python (run_payload run_1) ≡ ok (some run_1)
parse_cached_run-run_payload_example = parse_cached_run-run_payload python run_1 run_1-IsKept

change_run-changed_example :
    let svc = over python runs memory memory-JsonLaws in
    let (o, w') = change_run python svc "t1" "r1" (started (pos 9)) run_world in
    (o ≡ ok (some run_started)) × (get_run python svc "t1" "r1" w' ≡ (ok (some run_started), w'))
unfolding started
change_run-changed_example =
    change_run-changed python runs memory memory-JsonLaws tt (started (pos 9)) run_1 run_started
      run_world run_1-IsKept run_started-IsKept refl refl

abbrev operations : List Operation
operations = start (pos 4) ∷ require [] ∷ submit ∷ cancel (pos 5) ∷ []

-- The SDK answers with a text and no tool calls.
abbrev said_hello : ExecutionResult
said_hello = record { response_text = some "hello"; tool_calls = []; usage = none }

abbrev others : Services World
others = record {
  get_assistant = λ id. answer (some id);
  create_message = λ thread_id role text id run_id. answer tt;
  execute_with_sdk = λ thread_id run id outputs. answer said_hello;
  now = λ w. pos 9;
  text_of = λ e. "";
}

others-Answering : Answering json_at others (ok said_hello) "run:t1:r1"
others-Answering = record {
  found = λ id w. refl;
  found-json = λ id w. refl;
  answered = λ thread_id run id outputs w. refl;
  answered-json = λ thread_id run id outputs w. refl;
  said = λ thread_id text id run_id w. refl;
  said-json = λ thread_id text id run_id w. refl;
}

execute_run-ends_example :
    let svc = over python runs memory memory-JsonLaws in
    (let (o, w') = execute_run python svc others "t1" "r1" run_world in
      (o ≡ ok (some said_hello))
      × EndsIn python runs memory memory-JsonLaws tt others "t1" "r1" w' completed)
    × (let (o, w') = submit_outputs python svc others "t1" "r1" [] run_world in
        (o ≡ ok (some said_hello))
        × EndsIn python runs memory memory-JsonLaws tt others "t1" "r1" w' completed)
execute_run-ends_example =
    execute_run-ends python runs memory memory-JsonLaws tt others (ok said_hello) [] run_1 run_world
      run_1-IsKept others-Answering refl
