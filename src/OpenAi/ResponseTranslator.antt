-- ===== src/OpenAi/ResponseTranslator.antt =====
-- apps/api/services/openai/translator.py: `ResponseTranslator`. Logging is left out. The id that
-- uuid4 draws and the time are arguments.
pub mod Outcomes
use Prim.Native.String.{◌++◌}
use mathlib.Core.Option.{get_or}
use claude_agent_api.Common.{
  ℕ, ◌+◌, String, Bool, true, false, Option, none, some, List, [], ◌∷◌, map, join, ◌==◌,
  if◌then◌else◌,
}
use claude_agent_api.Common.Int.{ℤ}
use claude_agent_api.Exec.{Exn, Outcome, ok, raise, api_error, value_error, ◌>>=?◌}
use claude_agent_api.Json.{Dict, str, obj, end, field, put}
use claude_agent_api.Runtime.{Runtime}
use claude_agent_api.OpenAi.Requests.{
  ContentPart, Content, absent, plain, parts, text, image_url, OpenAiMessage, system, user,
  assistant, tool, Role, ToolCallModel, ChatCompletionRequest, ContentBlock, Usage,
  SingleQueryResponse,
}
use claude_agent_api.OpenAi.Models.{Models, to_claude}
use claude_agent_api.OpenAi.Tools.{ToolCall, has_tool_calls, translate_tool_uses}

pub data FinishReason : Type 0 where
  stop length tool_calls error : FinishReason

-- `_map_stop_reason`
unfoldable pub map_stop_reason : Option String → Bool → FinishReason
map_stop_reason stop_reason true = tool_calls
map_stop_reason none false = stop
map_stop_reason (some r) false =
    if r == "completed"
    then stop
    else if r == "max_turns_reached"
    then length
    else if r == "interrupted"
    then stop
    else if r == "error"
    then error
    else stop

-- `if v: d[k] = v`
put_text : String → Option String → Dict → Dict
put_text k none d = d
put_text k (some s) d = if s == "" then d else put k (str s) d

put_dict : String → Option Dict → Dict → Dict
put_dict k none d = d
put_dict k (some end) d = d
put_dict k (some (field j v e)) d = put k (obj (field j v e)) d

unfoldable pub block_dict : ContentBlock → Dict
unfolding put_text put_dict
block_dict b = put_dict "input" b.input (
    put_text "name" b.name
      (put_text "id" b.id (put_text "text" b.text_ (field "type" (str b.type_) end))))

-- The texts of the blocks of type text.
unfoldable pub response_texts : List ContentBlock → List String
response_texts [] = []
response_texts (b ∷ bs) =
    let rest = response_texts bs in
    if b.type_ == "text"
    then elim b.text_ [ none ↦ rest | some t ↦ if t == "" then rest else t ∷ rest ]
    else rest

spaced_or_none : List String → Option String
spaced_or_none [] = none
spaced_or_none (t ∷ ts) = some (join " " (t ∷ ts))

-- The parts of an `OpenAIChatCompletion` that are not constant. The message has no `tool_calls`
-- if there are none.
pub record ChatCompletion : Type 0 where
  pub id : String
  pub created : ℤ
  pub model : String
  pub content : Option String
  pub message_calls : List ToolCall
  pub finish_reason : FinishReason
  pub prompt_tokens : ℕ
  pub completion_tokens : ℕ
  pub total_tokens : ℕ

-- `ResponseTranslator.translate`
unfoldable pub translate_response :
    Runtime
    → (Dict → String)
    → (ℕ → String)
    → String
    → ℤ
    → SingleQueryResponse
    → String
    → ChatCompletion
unfolding spaced_or_none
translate_response rt json_dumps fresh uuid now response original_model =
    let dicts = map block_dict response.content in
    let found = has_tool_calls dicts in
    record {
      id = "chatcmpl-" ++ uuid;
      created = now;
      model = if response.model == "" then original_model else response.model;
      content = spaced_or_none (response_texts response.content);
      message_calls = if found then translate_tool_uses rt json_dumps fresh 0 dicts else [];
      finish_reason = map_stop_reason response.stop_reason found;
      prompt_tokens = elim response.usage [ none ↦ 0 | some u ↦ u.input_tokens ];
      completion_tokens = elim response.usage [ none ↦ 0 | some u ↦ u.output_tokens ];
      total_tokens = elim response.usage [ none ↦ 0 | some u ↦ u.input_tokens + u.output_tokens ];
    }
