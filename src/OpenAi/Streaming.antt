-- ===== src/OpenAi/Streaming.antt =====
-- apps/api/services/openai/streaming.py: `StreamingAdapter`. Logging, and the count of chunks that
-- is only logged, are left out. What the generator yields is the list of its values.
pub mod Properties
use mathlib.Core.Option.{get_or}
use Prim.Native.String
use claude_agent_api.Common.{
  ℕ, suc, String, Bool, true, false, Option, none, some, List, [], ◌∷◌, ◌++◌, ◌==◌, if◌then◌else◌,
}
use claude_agent_api.Common.Int.{ℤ}
use claude_agent_api.Json.{Json, Items, Dict, nil, cons, obj, str, bool, arr, end, get}
use claude_agent_api.Payload.{is_truthy}
use claude_agent_api.OpenAi.Tools.{has_type}
use claude_agent_api.Runtime.{Runtime, to_str}

-- the keys that all the chunks of a stream share
pub record Header : Type 0 where
  pub id : String
  pub created : ℤ
  pub model : String

pub data Delta : Type 0 where
  -- {"role": "assistant"}
  role : Delta
  content : Json → Delta
  -- index, id, name, arguments
  tool_call : ℕ → String → String → String → Delta
  empty : Delta

pub data FinishReason : Type 0 where
  stop tool_calls error : FinishReason

pub data Output : Type 0 where
  chunk : Header → Delta → Option FinishReason → Output
  -- the marker at the end
  done : Output

-- What was yielded, and the state after it: how many ids were drawn, and `has_tool_calls`.
pub record Emitted : Type 0 where
  pub outputs : List Output
  pub drawn : ℕ
  pub has_tool_calls : Bool

abbrev pub nothing : ℕ → Bool → Emitted
nothing n has = record { outputs = []; drawn = n; has_tool_calls = has }

abbrev pub yield_first : Output → Emitted → Emitted
yield_first o e = record e { outputs = o ∷ e.outputs }

-- `mapped_model or original_model or "unknown"`
unfoldable pub model_name : Option String → String → String
model_name mapped_model original_model =
    let named = if original_model == "" then "unknown" else original_model in
    elim mapped_model [ none ↦ named | some m ↦ if m == "" then named else m ]

-- `uuid` is the text of the id that `uuid4` draws, `now` the time in seconds.
unfoldable pub header_of : Option String → String → Option String → String → ℤ → Header
header_of completion_id uuid mapped_model original_model now =
    let drawn_id = String.◌++◌ "chatcmpl-" uuid in
    record {
      id = elim completion_id [ none ↦ drawn_id | some c ↦ if c == "" then drawn_id else c ];
      created = now;
      model = model_name mapped_model original_model;
    }

-- json.dumps and the ids that uuid4 draws, one after the other, are arguments.
module _ (rt : Runtime) (json_dumps : Dict → String) (fresh : ℕ → String) (h : Header) where
  unfoldable pub arguments_of : Option Json → String
  arguments_of none = json_dumps end
  arguments_of (some (obj d)) = json_dumps d
  arguments_of (some v) = to_str rt v

  unfoldable pub tool_delta : ℕ → ℕ → Dict → Delta
  tool_delta index n block =
      tool_call index (to_str rt (get_or (get "id" block) (str (fresh n))))
        (to_str rt (get_or (get "name" block) (str ""))) (arguments_of (get "input" block))

  unfoldable pub text_chunk : Json → Emitted → Emitted
  text_chunk text rest =
      if is_truthy text then yield_first (chunk h (content text) none) rest else rest

  -- The loop over the content blocks, from a `tool_call_index`.
  unfoldable pub blocks : Items → ℕ → ℕ → Bool → Emitted
  blocks nil index n has = nothing n has
  blocks (cons (obj block) bs) index n has = elim (has_type block "text") [
    | true ↦ text_chunk (get_or (get "text" block) (str "")) (blocks bs index n has)
    | false ↦ elim (has_type block "tool_use") [
      | true ↦
          yield_first (chunk h (tool_delta index n block) none) (blocks bs (suc index) (suc n) true)
      | false ↦ blocks bs index n has
    ]
  ]
  blocks (cons v bs) index n has = blocks bs index n has

  unfoldable pub message_chunks : Option Json → ℕ → Bool → Emitted
  message_chunks (some (arr content_blocks)) n has = blocks content_blocks 0 n has
  message_chunks v n has = nothing n has

  unfoldable pub finish_reason : Dict → Bool → FinishReason
  finish_reason data_ has =
      if is_truthy (get_or (get "is_error" data_) (bool false))
      then error
      else if has
      then tool_calls
      else stop

  -- One event, but for the chunk with the role.
  unfoldable pub event_chunks : String → Dict → ℕ → Bool → Emitted
  event_chunks event_type event_data n has =
      if event_type == "message"
      then message_chunks (get "content" event_data) n has
      else if event_type == "partial"
      then message_chunks (get "content" event_data) n has
      else if event_type == "result"
      then yield_first (chunk h empty (some (finish_reason event_data has))) (nothing n has)
      else nothing n has

  -- The chunk with the role comes before what the first event yields, whatever that event is.
  abbrev pub opening : Bool → List Output
  opening true = chunk h role none ∷ []
  opening false = []

  -- The loop over the events, with `first_chunk`.
  unfoldable pub event_loop : Bool → List (String × Dict) → ℕ → Bool → Emitted
  event_loop first_chunk [] n has = nothing n has
  event_loop first_chunk ((event_type, event_data) ∷ events) n has =
      let now = event_chunks event_type event_data n has in
      let later = event_loop false events now.drawn now.has_tool_calls in
      record later { outputs = opening first_chunk ++ (now.outputs ++ later.outputs) }

  unfoldable pub adapt_stream : Bool → List (String × Dict) → List Output
  adapt_stream first_chunk events = (event_loop first_chunk events 0 false).outputs ++ (done ∷ [])
