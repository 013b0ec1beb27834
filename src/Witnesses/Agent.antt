-- ===== src/Witnesses/Agent.antt =====
-- Runs of apps/api/services/agent.
use claude_agent_api.Agent.Keeping.{process_responses-Keeps, process_responses-Keeps, Keeps}
use claude_agent_api.Agent.Dispatch.{
  process_responses, map_sdk_message, partial_event, agent_event, content_block_stop,
  assistant_message, user_message, system_message, SdkEvent, SdkMessage,
}
use claude_agent_api.Agent.Partial.{handle_partial_stop, block_stop, dict_form, Validation}
use claude_agent_api.Sessions.Model.{truthy}
use claude_agent_api.Common.{
  ◌&&◌, ℕ, String, ◌≡◌, ◌⊎◌, refl, true, false, ◌||◌, Option, none, some, List, [], ◌∷◌, ◌++◌, ◌==◌,
  if◌then◌else◌,
}
use claude_agent_api.Common.Int.{pos}
use claude_agent_api.Exec.{value_error, ok, raise, type_error}
use claude_agent_api.Json.{get, Json, null, bool, int, str, arr, obj, end, field, nil, cons}
use claude_agent_api.Checkpoints.Service.{Checkpoint, get_checkpoint_by_user_message_uuid}
use claude_agent_api.Agent.Context.{
  StreamContext, SdkContent, text_content, part_content, object_part, Part, no_usage, Block,
}
use claude_agent_api.Agent.Tracker.{
  AgentSessionTracker, is_active, is_interrupted, interrupt, register,
}
use claude_agent_api.Agent.Signals.{interrupt_arrives}
use claude_agent_api.Agent.Blocks.{object_block, block_of, extract_usage, extract_content_blocks}
use claude_agent_api.Agent.Handlers.{
  user_event, check_special_tool_uses, assistant_event, contains, track_file_modifications,
  handle_user_message, handle_assistant_message,
}
use claude_agent_api.Agent.Tracking.{modifies, no_repeats, track_file_modifications_lem}
use claude_agent_api.Agent.Aggregator.{plus, Library, SseEvent, usage_or}
use claude_agent_api.Agent.Aggregation.{tally}
use claude_agent_api.Agent.Runner.{Stream, stopped, next, run}
use claude_agent_api.Agent.SingleQuery.{
  events_of, ending, last_context, contents, any_failure, total, content_after, error_after,
  run_lem,
}
use claude_agent_api.Agent.Checkpointing.{create_from_context}
use claude_agent_api.Agent.Turns.{checkpoint_of_turn}
use claude_agent_api.Witnesses.World.{python, python-laws}
use claude_agent_api.Witnesses.Store.{
  Store, store, empty_store, store-JsonLaws, store-TextLaws, store-MarkerLaws,
}
use claude_agent_api.Witnesses.Checkpoints.{checkpoints}

abbrev tracker : AgentSessionTracker Store
tracker = record { cache = some store; session_ttl = 3600; interrupt_ttl = 300 }

abbrev registered : Store
registered = (register tracker "s1" empty_store).1

interrupt_arrives_example :
    let (r, w') = interrupt tracker "s1" registered in
    ((is_active tracker "s1" registered ≡ (ok true, registered))
      × (r ≡ ok true)
      × (is_interrupted tracker "s1" w' ≡ (ok true, w'))
      × (is_active tracker "s1" w' ≡ (ok true, w')))
    ⊎ ((is_active tracker "s1" registered ≡ (ok false, registered))
        × (r ≡ ok false)
        × (w' ≡ registered))
interrupt_arrives_example = interrupt_arrives tracker store store-MarkerLaws "s1" registered

abbrev context : StreamContext
context = record {
  session_id = "s1";
  model = "sonnet";
  num_turns = int (pos 0);
  total_cost_usd = null;
  is_error = bool false;
  result_text = null;
  structured_output = none;
  usage = none;
  model_usage = none;
  enable_file_checkpointing = true;
  include_partial_messages = true;
  last_user_message_uuid = none;
  files_modified = "a.py" ∷ [];
}

abbrev write_to : String → Part
write_to path = object_part (
    field "type" (str "tool_use")
      (field "name" (str "Write") (field "input" (obj (field "file_path" (str path) end)) end)))

abbrev message : SdkContent
message = part_content (write_to "a.py" ∷ write_to "b.py" ∷ write_to "b.py" ∷ [])

abbrev tool_blocks : List Block
tool_blocks = extract_content_blocks message

abbrev tracked : List String
tracked = (track_file_modifications tool_blocks context).files_modified

track_file_modifications_lem_example :
    ((new : List String) × (tracked ≡ ("a.py" ∷ []) ++ new)
      × (no_repeats new ≡ true)
      × ((p : String) → (contains ("a.py" ∷ []) p && contains new p) ≡ false))
    × ((path : String)
        → contains tracked path ≡ (contains ("a.py" ∷ []) path || modifies tool_blocks path))
    × (no_repeats tracked ≡ no_repeats ("a.py" ∷ []))
track_file_modifications_lem_example = track_file_modifications_lem tool_blocks context

abbrev usage_event : ℕ → Json
usage_event n = obj (field "output_tokens" (int (pos n)) end)

abbrev said_message : Json
said_message = obj (
    field "type" (str "assistant")
      (field "content" (arr (cons (str "hello") nil)) (field "usage" (usage_event 3) end)))

abbrev last_result : Json
last_result = obj (field "usage" (usage_event 4) end)

abbrev library : Library
library = record {
  loads = λ s.
      if s == "said" then some said_message else if s == "finished" then some last_result else none;
  float_plus = λ x n. raise type_error;
}

abbrev event : String → String → SseEvent
event name data_ = record { event = some name; data_ = some data_ }

abbrev stream : Stream
stream = next (event "message" "said") context (
    next (event "result" "finished") context
      (next (event "error" "") context (stopped (ok tt) context)))

run_lem_example :
    let response = run library stream "s1" "sonnet" (pos 12) in
    let events = events_of stream in
    let ctx = last_context stream in
    (response.content ≡ content_after (ending stream) (contents library events))
    × (response.is_error ≡ error_after (ending stream) (any_failure library events) ctx.is_error)
    × ((usage : Option Json) × (response.usage ≡ usage_or ctx.usage usage)
        × ((k : String) → tally usage k ≡ total library events k))
unfolding get
run_lem_example = run_lem library stream "s1" "sonnet" (pos 12) refl

abbrev after_turn : StreamContext
after_turn = record (track_file_modifications tool_blocks context) {
  last_user_message_uuid = some "u1";
}

answered :
    handle_assistant_message python message no_usage none
      (handle_user_message (text_content "edit it") (some "u1") context).0
    ≡ ok (after_turn, assistant_event tool_blocks "sonnet" none)
unfolding handle_assistant_message extract_usage handle_user_message check_special_tool_uses truthy
    extract_content_blocks track_file_modifications block_of object_block get
answered = refl

checkpoint_of_turn_example :
    let (r, w') = create_from_context python (some checkpoints) "c1" 5 after_turn empty_store in
    (c : Checkpoint) × (r ≡ ok (some c))
    × (c.session_id ≡ "s1")
    × (contains c.files_modified "b.py"
        ≡ (contains ("a.py" ∷ []) "b.py" || modifies tool_blocks "b.py"))
    × (get_checkpoint_by_user_message_uuid python checkpoints "u1" w' ≡ (ok (some c), w'))
checkpoint_of_turn_example =
    checkpoint_of_turn python checkpoints store store-JsonLaws store-TextLaws python-laws
      (text_content "edit it") message no_usage none "c1" "u1" "b.py" 5 context after_turn
      (assistant_event tool_blocks "sonnet" none) empty_store refl refl refl answered

abbrev checked : Validation
checked = record {
  int_field = λ v. elim v [ int n ↦ ok n | _ ↦ raise value_error ];
  opt_text_field = λ v. elim v [ null ↦ ok none | str s ↦ ok (some s) | _ ↦ raise value_error ];
}

abbrev sdk_messages : List SdkMessage
sdk_messages =
    system_message
    ∷ user_message (text_content "edit it") (some "u1")
    ∷ content_block_stop (dict_form (field "index" (int (pos 2)) end))
    ∷ assistant_message message no_usage none
    ∷ []

abbrev sdk_events : List SdkEvent
sdk_events =
    agent_event (user_event (extract_content_blocks (text_content "edit it")) (some "u1"))
    ∷ partial_event (block_stop (pos 2))
    ∷ agent_event (assistant_event tool_blocks "sonnet" none)
    ∷ []

abbrev after_four : StreamContext
after_four = record after_turn { num_turns = int (pos 4) }

handled :
    process_responses python library checked sdk_messages context ≡ ok (after_four, sdk_events)
unfolding process_responses plus map_sdk_message handle_user_message truthy handle_partial_stop get
    handle_assistant_message extract_usage track_file_modifications check_special_tool_uses
    extract_content_blocks block_of object_block
handled = refl

process_responses-Keeps_example : Keeps context after_four
process_responses-Keeps_example =
    process_responses-Keeps python library checked sdk_messages context after_four sdk_events
      handled
