-- ===== src/Witnesses/Streams.antt =====
-- Runs of apps/api/services/openai/streaming.py.
use mathlib.Core.Option.{get_or}
use claude_agent_api.Common.{
  ◌⊎◌, ◌≢◌, String, ◌≡◌, Bool, List, [], ◌∷◌, ◌++◌, All, none, some, if◌then◌else◌,
}
use claude_agent_api.Common.Int.{pos}
use claude_agent_api.Json.{Items, Dict, nil, cons, obj, str, bool, arr, end, field, get}
use claude_agent_api.Payload.{is_truthy}
use claude_agent_api.OpenAi.Streaming.{
  Header, Output, chunk, done, role, empty, stop, tool_calls, error, adapt_stream,
}
use claude_agent_api.OpenAi.Streaming.Properties.{
  IsBody, any_tool, adapt_stream_lem, adapt_stream-result,
}
use claude_agent_api.Witnesses.World.{python, strokes}

abbrev header : Header
header = record { id = "chatcmpl-1"; created = pos 3; model = "sonnet" }

abbrev dumps : Dict → String
dumps d = "{}"

-- a text and two tool calls
abbrev three_blocks : Items
three_blocks = cons (obj (field "type" (str "text") (field "text" (str "hi") end))) (
    cons (obj (field "type" (str "tool_use") end))
      (cons (obj (field "type" (str "tool_use") (field "id" (str "t2") end))) nil))

abbrev message : String × Dict
message = ("message", field "content" (arr three_blocks) end)

abbrev result : Dict
result = field "is_error" (bool Bool.false) end

adapt_stream_lem_example :
    (body : List Output) × (adapt_stream python dumps strokes header Bool.true (message ∷ [])
      ≡ chunk header role none ∷ (body ++ (done ∷ [])))
    × All (IsBody header) body
adapt_stream_lem_example = adapt_stream_lem python dumps strokes header message []

adapt_stream-result_example :
    (body : List Output) × (adapt_stream python dumps strokes header Bool.true
        ((message ∷ []) ++ (("result", result) ∷ []))
      ≡ (chunk header role none ∷ body)
        ++ (chunk header empty (
              some (
                if is_truthy (get_or (get "is_error" result) (bool Bool.false))
                then error
                else if any_tool body
                then tool_calls
                else stop))
            ∷ done
            ∷ []))
    × (((message ∷ []) ≢ []) ⊎ (body ≡ []))
adapt_stream-result_example = adapt_stream-result python dumps strokes header (message ∷ []) result
