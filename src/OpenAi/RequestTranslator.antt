-- ===== src/OpenAi/RequestTranslator.antt =====
-- apps/api/services/openai/translator.py: `RequestTranslator`. Logging, with the warnings on
-- unsupported parameters, is left out.
pub mod Outcomes
use Prim.Native.String.{count, ◌++◌}
use mathlib.Core.Option.{get_or}
use claude_agent_api.Common.{
  ◌&&◌, leb, ℕ, ◌+◌, String, Bool, true, false, Option, none, some, List, [], ◌∷◌, map, join, ◌==◌,
  if◌then◌else◌,
}
use claude_agent_api.Common.Int.{ℤ}
use claude_agent_api.Exec.{Exn, Outcome, ok, raise, api_error, value_error, ◌>>=?◌}
use claude_agent_api.Json.{Dict, str, obj, end, field, put}
use claude_agent_api.Runtime.{Runtime}
use claude_agent_api.OpenAi.Requests.{
  ContentPart, Content, absent, plain, parts, text, image_url, OpenAiMessage, system, user,
  assistant, tool, Role, ToolCallModel, ChatCompletionRequest, ContentBlock, Usage,
  SingleQueryResponse,
}
use claude_agent_api.OpenAi.Models.{is_model_name, Models, to_claude}
use claude_agent_api.OpenAi.Tools.{ToolCall, has_tool_calls, translate_tool_uses}

-- The texts of the text parts that have one.
texts_of : List ContentPart → List String
texts_of [] = []
texts_of (p ∷ ps) =
    let rest = texts_of ps in
    elim p.type_ [
      | text ↦ elim p.text_ [ none ↦ rest | some t ↦ if t == "" then rest else t ∷ rest ]
      | image_url ↦ rest
    ]

unfoldable pub extract_text : Content → String
unfolding texts_of
extract_text absent = ""
extract_text (plain s) = s
extract_text (parts ps) = join "\n" (texts_of ps)

-- The system messages' texts that are not empty.
unfoldable pub system_texts : List OpenAiMessage → List String
system_texts [] = []
system_texts (m ∷ ms) =
    let rest = system_texts ms in
    elim m.role [
      | system ↦ let t = extract_text m.content in if t == "" then rest else t ∷ rest
      | _ ↦ rest
    ]

unfoldable pub conversation : List OpenAiMessage → List OpenAiMessage
conversation [] = []
conversation (m ∷ ms) = let rest = conversation ms in elim m.role [ system ↦ rest | _ ↦ m ∷ rest ]

-- `"\n\n".join(...)`, or None if there is no text
joined_or_none : List String → Option String
joined_or_none [] = none
joined_or_none (t ∷ ts) = some (join "\n\n" (t ∷ ts))

unfoldable pub separate_system_messages : List OpenAiMessage → Option String × List OpenAiMessage
unfolding joined_or_none
separate_system_messages messages = (joined_or_none (system_texts messages), conversation messages)

-- `x or "unknown"`
or_unknown : Option String → String
or_unknown none = "unknown"
or_unknown (some s) = if s == "" then "unknown" else s

upper : Role → String
upper system = "SYSTEM"
upper user = "USER"
upper assistant = "ASSISTANT"
upper tool = "TOOL"

tool_call_line : ToolCallModel → String
tool_call_line tc = "  - " ++ (tc.name ++ ("(id=" ++ (tc.id ++ ("): " ++ tc.arguments))))

tool_part : OpenAiMessage → String
tool_part m =
    "TOOL_RESULT ("
    ++ (or_unknown m.name
        ++ (", id="
            ++ (or_unknown m.tool_call_id ++ ("): " ++ (extract_text m.content ++ "\n\n")))))

plain_part : OpenAiMessage → String
plain_part m = upper m.role ++ (": " ++ (extract_text m.content ++ "\n\n"))

calls_part : OpenAiMessage → List ToolCallModel → String
calls_part m calls =
    "ASSISTANT: "
    ++ (extract_text m.content
        ++ ("\n[Tool Calls]\n" ++ (join "\n" (map tool_call_line calls) ++ "\n\n")))

assistant_part : OpenAiMessage → Option (List ToolCallModel) → String
assistant_part m none = plain_part m
assistant_part m (some []) = plain_part m
assistant_part m (some (c ∷ cs)) = calls_part m (c ∷ cs)

part_as : Role → OpenAiMessage → String
part_as tool m = tool_part m
part_as assistant m = assistant_part m m.tool_calls
part_as _ m = plain_part m

-- One message of the prompt.
unfoldable pub prompt_part : OpenAiMessage → String
unfolding tool_part plain_part calls_part assistant_part part_as upper or_unknown tool_call_line
prompt_part m = part_as m.role m

unfoldable pub concatenate_messages : List OpenAiMessage → String
concatenate_messages [] = ""
concatenate_messages (m ∷ ms) = prompt_part m ++ concatenate_messages ms

abbrev pub max_prompt_length : ℕ
max_prompt_length = 100000

-- `Field(..., min_length=1, max_length=100000)`
unfoldable pub is_prompt : String → Bool
is_prompt prompt = leb 1 (count prompt) && leb (count prompt) max_prompt_length

-- What the translation sets of a `QueryRequest`.
pub record QueryRequest : Type 0 where
  pub prompt : String
  pub model : String
  pub system_prompt : Option String
  pub user_ : Option String
  pub permission_mode : String

unfoldable pub final_permission_mode : Option String → String
final_permission_mode none = "default"
final_permission_mode (some mode) =
    if mode == "acceptEdits"
    then mode
    else if mode == "plan"
    then mode
    else if mode == "bypassPermissions"
    then mode
    else "default"

abbrev pub no_message : Exn
no_message = api_error "At least one user or assistant message is required" "VALIDATION_ERROR" 400

-- The text of the ValueError that `to_claude` raises.
abbrev pub unknown_model : String → Exn
unknown_model model = api_error ("Unknown model: " ++ model) "MODEL_NOT_FOUND" 400

-- Pydantic's tests of a `QueryRequest`, on the fields that the translation sets: `ValidationError`
-- is a ValueError. The other fields keep their defaults.
unfoldable pub validate_query : QueryRequest → Outcome QueryRequest
unfolding is_prompt
validate_query q = if is_prompt q.prompt && is_model_name q.model then ok q else raise value_error

-- `RequestTranslator.translate`
unfoldable pub translate_request :
    Models → ChatCompletionRequest → Option String → Outcome QueryRequest
translate_request models request permission_mode = elim (to_claude models request.model) [
  | raise e ↦ raise (unknown_model request.model)
  | ok claude_model ↦
      let separated = separate_system_messages request.messages in
      let prompt = concatenate_messages separated.1 in
      if prompt == ""
      then raise no_message
      else validate_query (record {
        prompt = prompt;
        model = claude_model;
        system_prompt = separated.0;
        user_ = request.user_;
        permission_mode = final_permission_mode permission_mode;
      })
]
