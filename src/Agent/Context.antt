-- ===== src/Agent/Context.antt =====
-- apps/api/services/agent/types.py, and what apps/api/schemas/responses.py declares of the content
-- and the usage of a message; with what the handlers read of the messages of the SDK.
use claude_agent_api.Common.{String, Bool, Option, List}
use claude_agent_api.Common.Int.{ℤ}
use claude_agent_api.Json.{Json, Items, Dict}

pub data BlockType : Type 0 where
  text thinking tool_use tool_result : BlockType

-- str | list | None
pub data ResultContent : Type 0 where
  no_content : ResultContent
  content_text : String → ResultContent
  content_list : Items → ResultContent

-- `ContentBlockSchema`
pub record Block : Type 0 where
  pub type_ : BlockType
  pub text_ : Option String
  pub thinking_ : Option String
  pub id : Option String
  pub name : Option String
  pub input : Option Dict
  pub tool_use_id : Option String
  pub content : ResultContent
  pub is_error : Option Bool

-- `UsageSchema`
pub record UsageData : Type 0 where
  pub input_tokens : ℤ
  pub output_tokens : ℤ
  pub cache_read_input_tokens : ℤ
  pub cache_creation_input_tokens : ℤ

-- What the SDK reports is kept as it is: `num_turns`, `total_cost_usd`, `is_error` and
-- `result_text` are not checked.
pub record StreamContext : Type 0 where
  pub session_id : String
  pub model : String
  pub num_turns : Json
  pub total_cost_usd : Json
  pub is_error : Json
  pub result_text : Json
  pub structured_output : Option Dict
  pub usage : Option Dict
  pub model_usage : Option Dict
  pub enable_file_checkpointing : Bool
  pub last_user_message_uuid : Option String
  pub files_modified : List String
  pub include_partial_messages : Bool

-- A content block of the SDK: a dict, or an object with its attributes.
pub data Part : Type 0 where
  dict_part object_part : Dict → Part

pub data SdkContent : Type 0 where
  text_content : String → SdkContent
  part_content : List Part → SdkContent

-- An object with integers for the attributes that it has.
pub record UsageObject : Type 0 where
  pub input_tokens : Option ℤ
  pub output_tokens : Option ℤ
  pub cache_read_input_tokens : Option ℤ
  pub cache_creation_input_tokens : Option ℤ

pub data SdkUsage : Type 0 where
  no_usage : SdkUsage
  usage_dict : Dict → SdkUsage
  usage_object : UsageObject → SdkUsage

-- The attributes of a `ResultMessage`, None where it has none.
pub record ResultMessage : Type 0 where
  pub is_error : Option Json
  pub num_turns : Option Json
  pub total_cost_usd : Option Json
  pub result : Option Json
  pub usage : SdkUsage
  pub model_usage : Option Json
  pub structured_output : Option Json
