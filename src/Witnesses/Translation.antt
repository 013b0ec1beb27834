-- ===== src/Witnesses/Translation.antt =====
-- Runs of apps/api/services/openai/{models,translator,streaming}.py.
use claude_agent_api.Witnesses.World.{strokes, python}
use claude_agent_api.Common.Int.{pos}
use claude_agent_api.Json.{end, Dict}
use claude_agent_api.OpenAi.ResponseTranslator.{tool_calls, translate_response}
use claude_agent_api.OpenAi.ResponseTranslator.Outcomes.{translate_response_lem, spoken, calls_in}
use claude_agent_api.Common.{◌↔◌, join, String, ◌≡◌, ◌≢◌, none, some, [], ◌∷◌}
use claude_agent_api.OpenAi.Requests.{
  SingleQueryResponse, ChatCompletionRequest, OpenAiMessage, user, system, plain,
}

abbrev hello : OpenAiMessage
hello = record {
  role = user;
  content = plain "hello";
  tool_calls = none;
  tool_call_id = none;
  name = none;
}

abbrev request : ChatCompletionRequest
request = record {
  model = "sonnet";
  messages = record hello { role = system } ∷ hello ∷ [];
  user_ = some "u";
}

abbrev dumps : Dict → String
dumps d = "{}"

-- a text and two tool calls, the second without an id
abbrev response : SingleQueryResponse
response = record {
  model = "sonnet";
  content =
      record { type_ = "text"; text_ = some "hi"; id = none; name = none; input = none }
      ∷ record { type_ = "tool_use"; text_ = none; id = some "t"; name = some "f"; input = none }
      ∷ record { type_ = "tool_use"; text_ = none; id = some ""; name = some "g"; input = some end }
      ∷ [];
  stop_reason = some "completed";
  usage = some (record { input_tokens = 3; output_tokens = 4 });
}

translate_response_lem_example :
    let c = translate_response python dumps strokes "u" (pos 1) response "gpt-4" in
    (c.message_calls ≡ calls_in dumps strokes 0 response.content)
    × ((c.finish_reason ≡ tool_calls) ↔ (calls_in dumps strokes 0 response.content ≢ []))
    × (c.content ≡ elim (spoken response.content) [ [] ↦ none | t ∷ ts ↦ some (join " " (t ∷ ts)) ])
translate_response_lem_example =
    translate_response_lem python dumps strokes "u" (pos 1) response "gpt-4"
