-- ===== src/OpenAi/Requests.antt =====
-- apps/api/schemas/openai/requests.py: what the translators read of a chat completion request, and
-- apps/api/schemas/responses.py: what they read of a response.
use claude_agent_api.Common.{ℕ, String, Bool, Option, List}
use claude_agent_api.Json.{Dict}

pub record FunctionParameters : Type 0 where
  pub type_ : String
  pub properties : Dict
  pub required : List String
  pub additional_properties : Bool

pub record FunctionModel : Type 0 where
  pub name : String
  pub description : Option String
  pub parameters : Option FunctionParameters

pub record ToolModel : Type 0 where
  pub type_ : String
  pub function_ : FunctionModel

pub record ToolCallModel : Type 0 where
  pub id : String
  pub name : String
  pub arguments : String

pub data PartType : Type 0 where
  text image_url : PartType

pub record ContentPart : Type 0 where
  pub type_ : PartType
  pub text_ : Option String

-- str | list[OpenAIContentPart] | None
pub data Content : Type 0 where
  absent : Content
  plain : String → Content
  parts : List ContentPart → Content

pub data Role : Type 0 where
  system user assistant tool : Role

pub record OpenAiMessage : Type 0 where
  pub role : Role
  pub content : Content
  pub tool_calls : Option (List ToolCallModel)
  pub tool_call_id : Option String
  pub name : Option String

-- The sampling parameters only lead to warnings.
pub record ChatCompletionRequest : Type 0 where
  pub model : String
  pub messages : List OpenAiMessage
  pub user_ : Option String

pub record ContentBlock : Type 0 where
  pub type_ : String
  pub text_ : Option String
  pub id : Option String
  pub name : Option String
  pub input : Option Dict

pub record Usage : Type 0 where
  pub input_tokens : ℕ
  pub output_tokens : ℕ

pub record SingleQueryResponse : Type 0 where
  pub model : String
  pub content : List ContentBlock
  pub stop_reason : Option String
  pub usage : Option Usage
