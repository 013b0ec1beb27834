-- ===== src/Runs/Executor.antt =====
-- apps/api/services/assistants/run_executor.py: `RunExecutor`, but for the streams of events.
-- Logging is left out. The services it calls and the times they draw are `Services`.
pub mod Settling
pub mod Outcomes
use claude_agent_api.Common.{
  ℕ, String, Bool, true, false, Option, none, some, List, [], ◌∷◌, map, ◌==◌, if◌then◌else◌,
}
use claude_agent_api.Common.Int.{ℤ, pos}
use claude_agent_api.Exec.{
  Exn, api_error, session_not_found, other, Exec, pure, throw, catch, ◌>>=◌, ◌>>◌,
}
use claude_agent_api.Json.{Json, Dict, null, int, str, obj, end, field, get}
use claude_agent_api.Messages.{Role, assistant}
use claude_agent_api.Runtime.{Runtime, to_str}
use claude_agent_api.Runs.Model.{Run}
use claude_agent_api.Runs.Service.{
  RunService, start_run, complete_run, fail_run, require_action, submit_tool_outputs, kept,
}

pub record ExecutionResult : Type 0 where
  pub response_text : Option String
  pub tool_calls : List Dict
  pub usage : Option Dict

-- What the executor asks of the other services: the assistant's id, if there is one; a new message
-- of the assistant in a thread, for a run; the SDK's answer for a run, with the tool outputs that
-- a resumed run brings. `now` is the time, in seconds, and `text_of` the text of an exception.
pub record Services (W : Type 0) : Type 0 where
  pub get_assistant : String → Exec W (Option String)
  pub create_message : String → Role → String → String → String → Exec W (Unit {0})
  pub execute_with_sdk : String → Run → String → Option (List Dict) → Exec W ExecutionResult
  pub now : W → ℤ
  pub text_of : Exn → String

-- The last entry under the name, where it is not None: `str(val)`.
text_entry : Runtime → String → String → Option Json → String
text_entry rt name fallback none = fallback
text_entry rt name fallback (some (obj d)) = elim (get name d) [
  | none ↦ fallback
  | some v ↦ elim v [ null ↦ fallback | other_value ↦ to_str rt other_value ]
]
text_entry rt name fallback (some v) = fallback

id_text : Runtime → Option Json → String
id_text rt none = ""
id_text rt (some v) = to_str rt v

-- `_extract_tool_call`
unfoldable pub extract_tool_call : Runtime → Dict → Dict
unfolding text_entry id_text
extract_tool_call rt tc = field "id" (str (id_text rt (get "id" tc))) (
    field "type" (str "function") (
      field "function"
        (obj (
          field "name" (str (text_entry rt "name" "" (get "function" tc)))
            (field "arguments" (str (text_entry rt "arguments" "{}" (get "function" tc))) end)))
        end))

-- result.usage.get(k, 0)
count_of : Option Json → Json
count_of none = int (pos 0)
count_of (some v) = v

-- The usage that the run is completed with.
unfoldable pub usage_of : Option Dict → Option Dict
unfolding count_of
usage_of u = elim (kept u) [
  | none ↦ none
  | some d ↦ some (
      field "prompt_tokens" (count_of (get "prompt_tokens" d)) (
        field "completion_tokens" (count_of (get "completion_tokens" d))
          (field "total_tokens" (count_of (get "total_tokens" d)) end)))
]

assistant_not_found : Dict
assistant_not_found =
    field "code" (str "assistant_not_found") (field "message" (str "Assistant not found") end)

unfoldable pub execution_error : String → Dict
execution_error text = field "code" (str "execution_error") (field "message" (str text) end)

module _ {W : Type 0} (rt : Runtime) (runs : RunService W) (services : Services W) where
  open services use {get_assistant, create_message, execute_with_sdk, now, text_of}

  -- A text that is not empty becomes a message of the assistant.
  unfoldable pub say : String → String → String → Option String → Exec W (Unit {0})
  say thread_id run_id assistant_id none = pure tt
  say thread_id run_id assistant_id (some text) =
      if text == "" then pure tt else create_message thread_id assistant text assistant_id run_id

  -- What becomes of the run by the SDK's answer.
  unfoldable pub settle : String → String → String → ExecutionResult → List Dict → Exec W (Unit {0})
  settle thread_id run_id assistant_id result [] = do
    say thread_id run_id assistant_id result.response_text
    _ ← λ w. complete_run rt runs (now w) thread_id run_id (usage_of result.usage) w
    pure tt
  settle thread_id run_id assistant_id result (tc ∷ tcs) = do
    _ ← require_action rt runs thread_id run_id (map (extract_tool_call rt) (tc ∷ tcs))
    pure tt

  -- The `try` block, and its handler.
  unfoldable pub attempt :
      String → String → Run → String → Option (List Dict) → Exec W (Option ExecutionResult)
  attempt thread_id run_id run assistant_id tool_outputs =
      catch
        (do
          result ← execute_with_sdk thread_id run assistant_id tool_outputs
          settle thread_id run_id assistant_id result result.tool_calls
          pure (some result))
        (λ e. do
          _ ← λ w. fail_run rt runs (now w) thread_id run_id (execution_error (text_of e)) w
          pure none)

  unfoldable pub with_assistant :
      String → String → Run → Option (List Dict) → Option String → Exec W (Option ExecutionResult)
  unfolding assistant_not_found
  with_assistant thread_id run_id run tool_outputs none = do
    _ ← λ w. fail_run rt runs (now w) thread_id run_id assistant_not_found w
    pure none
  with_assistant thread_id run_id run tool_outputs (some assistant_id) =
      attempt thread_id run_id run assistant_id tool_outputs

  -- The part that `execute_run` and `submit_tool_outputs` share, from the run that the run service
  -- returned.
  unfoldable pub go_on :
      String → String → Option (List Dict) → Option Run → Exec W (Option ExecutionResult)
  go_on thread_id run_id tool_outputs none = pure none
  go_on thread_id run_id tool_outputs (some run) = do
    found ← get_assistant run.assistant_id
    with_assistant thread_id run_id run tool_outputs found

  unfoldable pub execute_run : String → String → Exec W (Option ExecutionResult)
  execute_run thread_id run_id = do
    run ← λ w. start_run rt runs (now w) thread_id run_id w
    go_on thread_id run_id none run

  unfoldable pub submit_outputs : String → String → List Dict → Exec W (Option ExecutionResult)
  submit_outputs thread_id run_id tool_outputs = do
    run ← submit_tool_outputs rt runs thread_id run_id
    go_on thread_id run_id (some tool_outputs) run
