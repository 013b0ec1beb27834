-- ===== src/Agent/Dispatch.antt =====
-- apps/api/services/agent/handlers.py: `MessageHandler.map_sdk_message`.
use claude_agent_api.Common.Int.{pos}
use claude_agent_api.Agent.Aggregator.{plus, Library}
use claude_agent_api.Common.{String, Option, none, some, List, [], ◌∷◌, ◌==◌, if◌then◌else◌}
use claude_agent_api.Exec.{Outcome, ok, ◌>>=?◌}
use claude_agent_api.Json.{Dict, str, get}
use claude_agent_api.Runtime.{Runtime}
use claude_agent_api.Agent.Context.{StreamContext, SdkContent, SdkUsage, ResultMessage}
use claude_agent_api.Agent.Handlers.{
  AgentEvent, handle_user_message, handle_assistant_message, handle_result_message,
}
use claude_agent_api.Agent.Partial.{
  Validation, Partial, dict_form, PartialEvent, handle_partial_start, handle_partial_delta,
  handle_partial_stop,
}

-- The messages of the SDK by the name of their class. A system message is only logged; a stream
-- event holds a dict or something else.
pub data SdkMessage : Type 0 where
  system_message : SdkMessage
  user_message : SdkContent → Option String → SdkMessage
  assistant_message : SdkContent → SdkUsage → Option String → SdkMessage
  result_message : ResultMessage → SdkMessage
  stream_event : Option Dict → SdkMessage
  content_block_start content_block_delta content_block_stop : Partial → SdkMessage
  other_message : SdkMessage

pub data SdkEvent : Type 0 where
  agent_event : AgentEvent → SdkEvent
  partial_event : PartialEvent → SdkEvent

as_event : Outcome PartialEvent → Outcome (Option SdkEvent)
as_event o = o >>=? λ e. ok (some (partial_event e))

named_partial : Validation → String → Partial → Outcome (Option SdkEvent)
unfolding as_event
named_partial v name m =
    if name == "content_block_start"
    then as_event (handle_partial_start v m)
    else if name == "content_block_delta"
    then as_event (handle_partial_delta v m)
    else if name == "content_block_stop"
    then as_event (handle_partial_stop v m)
    else ok none

unfoldable pub handle_stream_event_partial : Validation → Option Dict → Outcome (Option SdkEvent)
unfolding named_partial
handle_stream_event_partial v none = ok none
handle_stream_event_partial v (some d) = elim (get "type" d) [
  | some (str name) ↦ named_partial v name (dict_form d)
  | _ ↦ ok none
]

-- What is left of a message when the base handlers do not take it.
unfoldable pub partial_of : Validation → SdkMessage → Outcome (Option SdkEvent)
unfolding as_event
partial_of v (stream_event d) = handle_stream_event_partial v d
partial_of v (content_block_start m) = as_event (handle_partial_start v m)
partial_of v (content_block_delta m) = as_event (handle_partial_delta v m)
partial_of v (content_block_stop m) = as_event (handle_partial_stop v m)
partial_of v m = ok none

-- The new context and the event, if there is one.
unfoldable pub map_sdk_message :
    Runtime → Validation → SdkMessage → StreamContext → Outcome (StreamContext × Option SdkEvent)
unfolding partial_of
map_sdk_message rt v system_message ctx = ok (ctx, none)
map_sdk_message rt v (user_message content uuid) ctx =
    let (after, e) = handle_user_message content uuid ctx in ok (after, some (agent_event e))
map_sdk_message rt v (assistant_message content usage model) ctx =
    handle_assistant_message rt content usage model ctx >>=? λ handled.
    ok (handled.0, some (agent_event handled.1))
map_sdk_message rt v (result_message m) ctx = ok (handle_result_message m ctx, none)
map_sdk_message rt v m ctx =
    if ctx.include_partial_messages then (partial_of v m >>=? λ e. ok (ctx, e)) else ok (ctx, none)

-- The events that are there.
abbrev pub with_event : Option SdkEvent → List SdkEvent → List SdkEvent
with_event none es = es
with_event (some e) es = e ∷ es

-- services/agent/query_executor.py: the messages of a query in their order, each of which counts as
-- a turn. An exception ends them.
unfoldable pub process_responses :
    Runtime
    → Library
    → Validation
    → List SdkMessage
    → StreamContext
    → Outcome (StreamContext × List SdkEvent)
process_responses rt lib v [] ctx = ok (ctx, [])
process_responses rt lib v (m ∷ ms) ctx = plus lib ctx.num_turns (pos 1) >>=? λ turns.
    map_sdk_message rt v m (record ctx { num_turns = turns }) >>=? λ handled.
    process_responses rt lib v ms handled.0 >>=? λ rest. ok (rest.0, with_event handled.1 rest.1)
