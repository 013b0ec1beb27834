-- ===== src/OpenAi/Tools.antt =====
-- apps/api/services/openai/tools.py: `ToolTranslator`. Logging is left out.
pub mod Calls
use mathlib.Core.Option.{get_or}
use claude_agent_api.Common.{
  ℕ, suc, String, Bool, true, false, ◌||◌, Option, none, some, List, [], ◌∷◌, map, join, ◌==◌,
  if◌then◌else◌,
}
use claude_agent_api.Json.{Json, Dict, str, bool, arr, obj, end, field, items_of, get, put}
use claude_agent_api.Payload.{is_truthy}
use claude_agent_api.Runtime.{Runtime, to_str}
use claude_agent_api.OpenAi.Requests.{
  FunctionParameters, FunctionModel, ToolModel, OpenAiMessage, Content, absent, plain, parts, tool,
}

abbrev pub is_type : Option Json → String → Bool
is_type (some (str s)) name = s == name
is_type _ name = false

-- block.get("type") == name
abbrev pub has_type : Dict → String → Bool
has_type block name = is_type (get "type" block) name

-- The `input_schema` of a tool.
unfoldable pub input_schema : Option FunctionParameters → Dict
input_schema none = field "type" (str "object") (field "properties" (obj end) end)
input_schema (some p) =
    let schema = field "type" (str p.type_) (field "properties" (obj p.properties) end) in
    let with_required : Dict = elim p.required [
      | [] ↦ schema
      | r ∷ rs ↦ put "required" (arr (items_of (map str (r ∷ rs)))) schema
    ] in
    if p.additional_properties
    then with_required
    else put "additionalProperties" (bool false) with_required

unfoldable pub claude_tool : FunctionModel → Dict
claude_tool func =
    let named = field "name" (str func.name) end in
    let described : Dict = elim func.description [
      | none ↦ named
      | some d ↦ if d == "" then named else put "description" (str d) named
    ] in
    put "input_schema" (obj (input_schema func.parameters)) described

unfoldable pub translate_tools_to_claude : List ToolModel → List Dict
translate_tools_to_claude [] = []
translate_tools_to_claude (t ∷ ts) =
    let rest = translate_tools_to_claude ts in
    if t.type_ == "function" then claude_tool t.function_ ∷ rest else rest

pub record ToolCall : Type 0 where
  pub id : String
  pub name : String
  pub arguments : String

-- json.dumps and the ids that uuid4 draws, one after the other, are arguments.
module _ (rt : Runtime) (json_dumps : Dict → String) (fresh : ℕ → String) where
  unfoldable pub arguments_of : Option Json → String
  arguments_of none = json_dumps end
  arguments_of (some (obj d)) = json_dumps d
  arguments_of (some v) = to_str rt v

  unfoldable pub tool_call_of : ℕ → Dict → ToolCall
  tool_call_of n block = record {
    id = to_str rt (get_or (get "id" block) (str (fresh n)));
    name = to_str rt (get_or (get "name" block) (str ""));
    arguments = arguments_of (get "input" block);
  }

  -- `translate_claude_tool_use_to_openai`, after `n` ids were drawn
  unfoldable pub translate_tool_uses : ℕ → List Dict → List ToolCall
  translate_tool_uses n [] = []
  translate_tool_uses n (block ∷ blocks) = elim (has_type block "tool_use") [
    | true ↦ tool_call_of n block ∷ translate_tool_uses (suc n) blocks
    | false ↦ translate_tool_uses n blocks
  ]

  -- The texts that `extract_text_content` joins.
  text_parts : List Dict → List String
  text_parts [] = []
  text_parts (block ∷ blocks) =
      let rest = text_parts blocks in
      let text = get_or (get "text" block) (str "") in
      if has_type block "text" then if is_truthy text then to_str rt text ∷ rest else rest else rest

  unfoldable pub extract_text_content : List Dict → String
  unfolding text_parts
  extract_text_content blocks = join " " (text_parts blocks)

unfoldable pub has_tool_calls : List Dict → Bool
has_tool_calls [] = false
has_tool_calls (block ∷ blocks) = has_type block "tool_use" || has_tool_calls blocks

pub record ToolResult : Type 0 where
  pub tool_use_id : String
  pub content : Content

-- `msg.content or ""`
or_empty : Content → Content
or_empty absent = plain ""
or_empty (parts []) = plain ""
or_empty c = c

unfoldable pub translate_tool_messages_to_claude : List OpenAiMessage → List ToolResult
unfolding or_empty
translate_tool_messages_to_claude [] = []
translate_tool_messages_to_claude (m ∷ ms) =
    let rest = translate_tool_messages_to_claude ms in
    elim m.role [
      | tool ↦ elim m.tool_call_id [
        | none ↦ rest
        | some id_ ↦
            if id_ == ""
            then rest
            else record { tool_use_id = id_; content = or_empty m.content } ∷ rest
      ]
      | _ ↦ rest
    ]
