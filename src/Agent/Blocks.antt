-- ===== src/Agent/Blocks.antt =====
-- apps/api/schemas/messages.py, and from apps/api/services/agent/handlers.py the extraction of
-- content blocks and of usage.
use mathlib.Core.Option.{get_or}
use claude_agent_api.Common.{
  String, Bool, false, Option, none, some, List, [], ◌∷◌, map, if◌then◌else◌,
}
use claude_agent_api.Common.Int.{ℤ, pos, int_of_bool}
use claude_agent_api.Exec.{Outcome, ok, ◌>>=?◌}
use claude_agent_api.Json.{Json, Dict, bool, int, float, str, arr, obj, end, get}
use claude_agent_api.Runtime.{Runtime}
use claude_agent_api.OpenAi.Tools.{is_type, has_type}
use claude_agent_api.Agent.Context.{
  BlockType, text, thinking, tool_use, tool_result, ResultContent, no_content, content_text,
  content_list, Block, UsageData, Part, dict_part, object_part, SdkContent, text_content,
  part_content, SdkUsage, no_usage, usage_dict, usage_object,
}

abbrev pub empty_block : BlockType → Block
empty_block t = record {
  type_ = t;
  text_ = none;
  thinking_ = none;
  id = none;
  name = none;
  input = none;
  tool_use_id = none;
  content = no_content;
  is_error = none;
}

-- `x if isinstance(x, str) else None`
unfoldable pub str_or_none : Option Json → Option String
str_or_none (some (str s)) = some s
str_or_none v = none

str_or_empty : Option Json → String
str_or_empty (some (str s)) = s
str_or_empty v = ""

dict_or_empty : Option Json → Dict
dict_or_empty (some (obj d)) = d
dict_or_empty v = end

dict_or_none : Option Json → Option Dict
dict_or_none (some (obj d)) = some d
dict_or_none v = none

bool_or_false : Option Json → Bool
bool_or_false (some (bool b)) = b
bool_or_false v = false

bool_or_none : Option Json → Option Bool
bool_or_none (some (bool b)) = some b
bool_or_none v = none

result_content : Option Json → ResultContent
result_content (some (str s)) = content_text s
result_content (some (arr xs)) = content_list xs
result_content v = no_content

unfoldable pub map_sdk_content_block : Dict → Block
unfolding str_or_none str_or_empty dict_or_empty bool_or_false result_content
map_sdk_content_block block =
    let block_type = get_or (get "type" block) (str "text") in
    if is_type (some block_type) "text"
    then record (empty_block text) { text_ = some (str_or_empty (get "text" block)) }
    else if is_type (some block_type) "thinking"
    then record (empty_block thinking) { thinking_ = some (str_or_empty (get "thinking" block)) }
    else if is_type (some block_type) "tool_use"
    then record (empty_block tool_use) {
      id = str_or_none (get "id" block);
      name = str_or_none (get "name" block);
      input = some (dict_or_empty (get "input" block));
    }
    else if is_type (some block_type) "tool_result"
    then record (empty_block tool_result) {
      tool_use_id = str_or_none (get "tool_use_id" block);
      content = result_content (get "content" block);
      is_error = some (bool_or_false (get "is_error" block));
    }
    else empty_block text

-- A type that is not known is taken for text.
unfoldable pub type_of : Option Json → BlockType
type_of raw =
    if is_type raw "thinking"
    then thinking
    else if is_type raw "tool_use"
    then tool_use
    else if is_type raw "tool_result"
    then tool_result
    else text

-- A block that is an object: every attribute that has the right type is kept.
unfoldable pub object_block : Dict → Block
unfolding str_or_none dict_or_none bool_or_none result_content type_of
object_block attributes = record {
  type_ = type_of (get "type" attributes);
  text_ = str_or_none (get "text" attributes);
  thinking_ = str_or_none (get "thinking" attributes);
  id = str_or_none (get "id" attributes);
  name = str_or_none (get "name" attributes);
  input = dict_or_none (get "input" attributes);
  tool_use_id = str_or_none (get "tool_use_id" attributes);
  content = result_content (get "content" attributes);
  is_error = bool_or_none (get "is_error" attributes);
}

unfoldable pub block_of : Part → Block
block_of (dict_part d) = map_sdk_content_block d
block_of (object_part d) = object_block d

unfoldable pub extract_content_blocks : SdkContent → List Block
extract_content_blocks (text_content s) = record (empty_block text) { text_ = some s } ∷ []
extract_content_blocks (part_content parts) = map block_of parts

-- `_to_int`, of a key with 0 where it is missing
to_int : Runtime → Option Json → Outcome ℤ
to_int rt (some (int n)) = ok n
to_int rt (some (bool b)) = ok (int_of_bool b)
to_int rt (some (float x)) = rt.int_of_float x
to_int rt (some (str s)) = rt.int_of_str s
to_int rt v = ok (pos 0)

unfoldable pub map_sdk_usage : Runtime → Dict → Outcome UsageData
unfolding to_int
map_sdk_usage rt usage = to_int rt (get "input_tokens" usage) >>=? λ input_tokens.
    to_int rt (get "output_tokens" usage) >>=? λ output_tokens.
    to_int rt (get "cache_read_input_tokens" usage) >>=? λ cache_read.
    to_int rt (get "cache_creation_input_tokens" usage) >>=? λ cache_creation. ok (record {
      input_tokens = input_tokens;
      output_tokens = output_tokens;
      cache_read_input_tokens = cache_read;
      cache_creation_input_tokens = cache_creation;
    })

unfoldable pub extract_usage : Runtime → SdkUsage → Outcome (Option UsageData)
extract_usage rt no_usage = ok none
extract_usage rt (usage_dict d) = map_sdk_usage rt d >>=? λ u. ok (some u)
extract_usage rt (usage_object u) = ok (
    some (record {
      input_tokens = get_or u.input_tokens (pos 0);
      output_tokens = get_or u.output_tokens (pos 0);
      cache_read_input_tokens = get_or u.cache_read_input_tokens (pos 0);
      cache_creation_input_tokens = get_or u.cache_creation_input_tokens (pos 0);
    }))

unfoldable pub is_ask_user_question : Dict → Bool
is_ask_user_question block =
    if has_type block "tool_use" then is_type (get "name" block) "AskUserQuestion" else false

unfoldable pub extract_question_from_block : Dict → Option String
unfolding str_or_none dict_or_empty
extract_question_from_block block =
    if is_ask_user_question block
    then str_or_none (get "question" (dict_or_empty (get "input" block)))
    else none
