-- ===== src/Agent/Handlers.antt =====
-- apps/api/services/agent/handlers.py: `MessageHandler` on user, assistant and result messages. An
-- event is what it is made of; Pydantic writes it as JSON. Logging is left out.
use mathlib.Core.Option.{get_or}
use claude_agent_api.Common.{
  String, Bool, true, false, ◌&&◌, ◌||◌, Option, none, some, List, [], ◌∷◌, ◌++◌, ◌==◌,
  if◌then◌else◌,
}
use claude_agent_api.Common.Int.{ℤ, pos}
use claude_agent_api.Exec.{Outcome, ok, ◌>>=?◌}
use claude_agent_api.Json.{Json, Dict, null, bool, int, str, obj, end, field, get}
use claude_agent_api.Runtime.{Runtime, to_str}
use claude_agent_api.Agent.Context.{
  BlockType, tool_use, Block, UsageData, StreamContext, SdkContent, SdkUsage, no_usage, usage_dict,
  usage_object, ResultMessage,
}
use claude_agent_api.Agent.Blocks.{extract_content_blocks, extract_usage}
use claude_agent_api.Sessions.Model.{truthy}

abbrev pub is_tool_use : BlockType → Bool
is_tool_use tool_use = true
is_tool_use t = false

-- x in xs
abbrev pub contains : List String → String → Bool
contains [] x = false
contains (y ∷ ys) x = y == x || contains ys x

abbrev pub is_named : Option String → String → Bool
is_named none n = false
is_named (some s) n = s == n

-- A `file_path` that is a text and not empty.
unfoldable pub path_text : Option Json → Option String
path_text (some (str s)) = if s == "" then none else some s
path_text v = none

unfoldable pub path_in : Option Dict → Option String
unfolding path_text
path_in none = none
path_in (some d) = path_text (get "file_path" d)

-- The file that a Write or an Edit names.
unfoldable pub modified_path : Block → Option String
unfolding path_in
modified_path b =
    if is_tool_use b.type_ && (is_named b.name "Write" || is_named b.name "Edit")
    then path_in b.input
    else none

unfoldable pub add_path : Option String → List String → List String
add_path none files = files
add_path (some path) files = if contains files path then files else files ++ (path ∷ [])

-- The list of modified files after `track_file_modifications`.
unfoldable pub track_files : List Block → List String → List String
unfolding add_path
track_files [] files = files
track_files (b ∷ bs) files = track_files bs (add_path (modified_path b) files)

unfoldable pub track_file_modifications : List Block → StreamContext → StreamContext
track_file_modifications blocks ctx = record ctx {
  files_modified = track_files blocks ctx.files_modified;
}

-- The events that the handlers give.
pub data AgentEvent : Type 0 where
  -- tool use id, question, session id
  question_event : String → String → String → AgentEvent
  -- the uuid of a user's message
  user_event : List Block → Option String → AgentEvent
  -- model and usage of an assistant's message
  assistant_event : List Block → String → Option UsageData → AgentEvent

-- `str(input.get("question", "")) if input else ""`
question_in : Runtime → Option Dict → String
question_in rt none = ""
question_in rt (some d) = to_str rt (get_or (get "question" d) (str ""))

-- The event of the first AskUserQuestion; TodoWrite is only logged.
unfoldable pub check_special_tool_uses : Runtime → List Block → StreamContext → Option AgentEvent
unfolding question_in
check_special_tool_uses rt [] ctx = none
check_special_tool_uses rt (b ∷ bs) ctx =
    let rest = check_special_tool_uses rt bs ctx in
    if is_tool_use b.type_ && is_named b.name "AskUserQuestion"
    then some (question_event (get_or b.id "") (question_in rt b.input) ctx.session_id)
    else rest

-- The new context and the event.
unfoldable pub handle_user_message :
    SdkContent → Option String → StreamContext → StreamContext × AgentEvent
handle_user_message content uuid ctx = (
  elim (truthy uuid) [
    | none ↦ ctx
    | some u ↦
        if ctx.enable_file_checkpointing
        then record ctx { last_user_message_uuid = some u }
        else ctx
  ],
  user_event (extract_content_blocks content) uuid,
)

unfoldable pub handle_assistant_message :
    Runtime
    → SdkContent
    → SdkUsage
    → Option String
    → StreamContext
    → Outcome (StreamContext × AgentEvent)
handle_assistant_message rt content usage model ctx =
    let blocks = extract_content_blocks content in
    extract_usage rt usage >>=? λ u.
    let tracked =
      if ctx.enable_file_checkpointing then track_file_modifications blocks ctx else ctx in
    ok (
      tracked,
      get_or (check_special_tool_uses rt blocks ctx)
          (assistant_event blocks (get_or model ctx.model) u),
    )

tokens : Option ℤ → Json
tokens n = int (get_or n (pos 0))

usage_after : SdkUsage → Option Dict → Option Dict
unfolding tokens
usage_after no_usage old = old
usage_after (usage_dict d) old = some d
usage_after (usage_object u) old = some (
    field "input_tokens" (tokens u.input_tokens) (
      field "output_tokens" (tokens u.output_tokens) (
        field "cache_read_input_tokens" (tokens u.cache_read_input_tokens)
          (field "cache_creation_input_tokens" (tokens u.cache_creation_input_tokens) end))))

-- A dict replaces the old one; None and anything else leave it.
dict_or_old : Option Json → Option Dict → Option Dict
dict_or_old (some (obj d)) old = some d
dict_or_old v old = old

-- Something that is neither None nor a dict.
unfoldable pub is_no_dict : Option Json → Bool
is_no_dict none = false
is_no_dict (some null) = false
is_no_dict (some (obj d)) = false
is_no_dict (some v) = true

unfoldable pub handle_result_message : ResultMessage → StreamContext → StreamContext
unfolding usage_after dict_or_old
handle_result_message m ctx = record ctx {
  is_error = if is_no_dict m.structured_output then bool true else get_or m.is_error (bool false);
  num_turns = get_or m.num_turns ctx.num_turns;
  total_cost_usd = get_or m.total_cost_usd null;
  result_text = get_or m.result null;
  usage = usage_after m.usage ctx.usage;
  model_usage = dict_or_old m.model_usage ctx.model_usage;
  structured_output = dict_or_old m.structured_output ctx.structured_output;
}
