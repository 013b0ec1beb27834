-- ===== src/OpenAi/Streaming/Properties.antt =====
-- The order and the contents of the chunks that a stream of events is turned into.
use claude_agent_api.Common.{
  ◌⊎◌, ◌≢◌, All-append, ℕ, suc, String, ◌≡◌, ◌∙◌, refl, sym, ap, Bool, true, false, ◌||◌, Option,
  none, some, List, [], ◌∷◌, ◌++◌, ◌==◌, if◌then◌else◌, All, arith, Bool-cases, inl, inr,
}
use mathlib.Core.List.{append_assoc}
use mathlib.Core.Option.{get_or}
use claude_agent_api.Json.{arr, Json, Items, Dict, get, bool, obj, nil, cons, str}
use claude_agent_api.Payload.{is_truthy}
use claude_agent_api.Runtime.{Runtime}
use claude_agent_api.OpenAi.Tools.{has_type}
use claude_agent_api.OpenAi.Streaming.{
  Header, role, tool_call, empty, Output, chunk, done, Emitted, blocks, text_chunk, tool_delta,
  message_chunks, event_chunks, event_loop, adapt_stream, finish_reason, stop, tool_calls, error,
}

-- A chunk of the stream, and not the one with the role.
abbrev pub IsBody : Header → Output → Type 0
IsBody h (chunk h' role f) = ⊥
IsBody h (chunk h' d f) = h' ≡ h
IsBody h done = ⊥

abbrev pub any_tool : List Output → Bool
any_tool [] = false
any_tool (chunk h (tool_call i k n a) f ∷ os) = true
any_tool (o ∷ os) = any_tool os

-- the indexes of the tool calls
abbrev pub indexes : List Output → List ℕ
indexes [] = []
indexes (chunk h (tool_call i k n a) f ∷ os) = i ∷ indexes os
indexes (o ∷ os) = indexes os

abbrev pub IsCountFrom : ℕ → List ℕ → Type 0
IsCountFrom n [] = Unit
IsCountFrom n (i ∷ is) = (i ≡ n) × IsCountFrom (suc n) is

module _ (rt : Runtime) (json_dumps : Dict → String) (fresh : ℕ → String) (h : Header) where
  -- What the loops keep: all they yield is of the stream, and the flag tells of tool calls.
  abbrev Keeps : Bool → Emitted → Type 0
  Keeps has e = All (IsBody h) e.outputs × (e.has_tool_calls ≡ (has || any_tool e.outputs))

  text_chunk-Keeps :
      (text : Json) (has : Bool) (e : Emitted)
      → Keeps has e
      → Keeps has (text_chunk rt json_dumps fresh h text e)
  unfolding text_chunk
  text_chunk-Keeps text has e k = elim (Bool-cases (is_truthy text)) [
    | inl t ↦ rw t ((refl, k.0), k.1)
    | inr f ↦ rw f k
  ]

  blocks-Keeps :
      (bs : Items) (index n : ℕ) (has : Bool)
      → Keeps has (blocks rt json_dumps fresh h bs index n has)
  unfolding blocks tool_delta
  blocks-Keeps nil index n has = (tt, ground arith)
  blocks-Keeps (cons (obj b) bs) index n has = elim (Bool-cases (has_type b "text")) [
    | inl t ↦ rw (blocks, t) (text_chunk-Keeps _ has _ (blocks-Keeps bs index n has))
    | inr f ↦ elim (Bool-cases (has_type b "tool_use")) [
      | inl t ↦
          let (all, flag) = blocks-Keeps bs (suc index) (suc n) true in
          rw (blocks, f, t) ((refl, all), ground (arith, flag))
      | inr g ↦ rw (blocks, f, g) (blocks-Keeps bs index n has)
    ]
  ]
  blocks-Keeps (cons v bs) index n has = blocks-Keeps bs index n has

  message_chunks-Keeps :
      (c : Option Json) (n : ℕ) (has : Bool)
      → Keeps has (message_chunks rt json_dumps fresh h c n has)
  unfolding message_chunks
  message_chunks-Keeps (some (arr bs)) n has = blocks-Keeps bs 0 n has
  message_chunks-Keeps v n has = (tt, ground arith)

  event_chunks-Keeps :
      (ty : String) (d : Dict) (n : ℕ) (has : Bool)
      → Keeps has (event_chunks rt json_dumps fresh h ty d n has)
  unfolding event_chunks
  event_chunks-Keeps ty d n has = elim (Bool-cases (ty == "message")) [
    | inl e ↦ rw (event_chunks, e) (message_chunks-Keeps _ n has)
    | inr e ↦ elim (Bool-cases (ty == "partial")) [
      | inl p ↦ rw (event_chunks, e, p) (message_chunks-Keeps _ n has)
      | inr p ↦ elim (Bool-cases (ty == "result")) [
        | inl r ↦ rw (event_chunks, e, p, r) ((refl, tt), ground arith)
        | inr r ↦ rw (event_chunks, e, p, r) (tt, ground arith)
      ]
    ]
  ]

  any_tool-append : (xs ys : List Output) → any_tool (xs ++ ys) ≡ (any_tool xs || any_tool ys)
  any_tool-append [] ys = refl
  any_tool-append (chunk g (tool_call i k n a) f ∷ xs) ys = refl
  any_tool-append (x ∷ xs) ys = any_tool-append xs ys

  event_loop-Keeps :
      (events : List (String × Dict)) (n : ℕ) (has : Bool)
      → Keeps has (event_loop rt json_dumps fresh h false events n has)
  unfolding event_loop
  event_loop-Keeps [] n has = (tt, ground arith)
  event_loop-Keeps ((ty, d) ∷ events) n has =
      let now = event_chunks rt json_dumps fresh h ty d n has in
      let later = event_loop rt json_dumps fresh h false events now.drawn now.has_tool_calls in
      let (all, flag) = event_chunks-Keeps ty d n has in
      let (all', flag') = event_loop-Keeps events now.drawn now.has_tool_calls in
      (
        All-append (IsBody h) now.outputs later.outputs all all',
        ground (arith, flag, flag', any_tool-append now.outputs later.outputs),
      )

  -- The stream of at least one event begins with the chunk that has the role and ends with
  -- the end marker; all between are chunks with the same id, time and model, none of them with the role.
  pub adapt_stream_lem :
      (event : String × Dict) (events : List (String × Dict))
      → (body : List Output) × (adapt_stream rt json_dumps fresh h true (event ∷ events)
          ≡ chunk h role none ∷ (body ++ (done ∷ [])))
        × All (IsBody h) body
  unfolding adapt_stream event_loop
  adapt_stream_lem event events = (
    (event_loop rt json_dumps fresh h false (event ∷ events) 0 false).outputs,
    refl,
    (event_loop-Keeps (event ∷ events) 0 false).0,
  )

  result_chunk :
      (d : Dict) (n : ℕ) (has : Bool)
      → (event_chunks rt json_dumps fresh h "result" d n has).outputs
        ≡ chunk h empty (some (finish_reason rt json_dumps fresh h d has)) ∷ []
  unfolding event_chunks
  result_chunk d n has = refl

  event_loop-result :
      (d : Dict) (events : List (String × Dict)) (n : ℕ) (has : Bool)
      → let before = event_loop rt json_dumps fresh h false events n has in
        (event_loop rt json_dumps fresh h false (events ++ (("result", d) ∷ [])) n has).outputs
        ≡ before.outputs
          ++ (chunk h empty (some (finish_reason rt json_dumps fresh h d before.has_tool_calls))
              ∷ [])
  unfolding event_loop
  event_loop-result d [] n has = rw (result_chunk d n has) refl
  event_loop-result d ((ty, e) ∷ events) n has =
      let now = event_chunks rt json_dumps fresh h ty e n has in
      rw (event_loop-result d events now.drawn now.has_tool_calls)
        (sym (append_assoc now.outputs _ _))

  -- If the last event is a result, the stream is the role chunk, the chunks of the events before it,
  -- a chunk that tells why it ended, and the end marker. The reason is `error` if the result is an
  -- error, else `tool_calls` if some chunk before it is a tool call, else `stop`. A result that is
  -- the only event has no chunks before it.
  pub adapt_stream-result :
      (events : List (String × Dict)) (d : Dict)
      → (body : List Output) × (adapt_stream rt json_dumps fresh h true
            (events ++ (("result", d) ∷ []))
          ≡ (chunk h role none ∷ body)
            ++ (chunk h empty (
                  some (
                    if is_truthy (get_or (get "is_error" d) (bool false))
                    then error
                    else if any_tool body
                    then tool_calls
                    else stop))
                ∷ done
                ∷ []))
        × ((events ≢ []) ⊎ (body ≡ []))
  unfolding adapt_stream event_loop finish_reason
  adapt_stream-result [] d = ([], rw (result_chunk d 0 false) refl, inr refl)
  adapt_stream-result (event ∷ events) d =
      let before = event_loop rt json_dumps fresh h false (event ∷ events) 0 false in
      let reason = finish_reason rt json_dumps fresh h d (any_tool before.outputs) in
      let flag : before.has_tool_calls ≡ any_tool before.outputs =
        (event_loop-Keeps (event ∷ events) 0 false).1 in
      let ends : (event_loop rt json_dumps fresh h false (event ∷ (events ++ (("result", d) ∷ [])))
            0 false).outputs
          ≡ before.outputs ++ (chunk h empty (some reason) ∷ []) =
        event_loop-result d (event ∷ events) 0 false
        ∙ ap
            (λ b.
              before.outputs
              ++ (chunk h empty (some (finish_reason rt json_dumps fresh h d b)) ∷ []))
            flag in
      (
        before.outputs,
        ap (λ xs. chunk h role none ∷ (xs ++ (done ∷ []))) ends
            ∙ ap (◌∷◌ (chunk h role none))
                (append_assoc before.outputs (chunk h empty (some reason) ∷ []) (done ∷ [])),
        inl (λ e. ground (arith, e)),
      )

  -- The tool calls of one message are numbered in order, from 0.
  pub blocks-IsCountFrom :
      (bs : Items) (index n : ℕ) (has : Bool)
      → IsCountFrom index (indexes (blocks rt json_dumps fresh h bs index n has).outputs)
  unfolding blocks tool_delta text_chunk
  blocks-IsCountFrom nil index n has = tt
  blocks-IsCountFrom (cons (obj b) bs) index n has = elim (Bool-cases (has_type b "text")) [
    | inl t ↦ elim (Bool-cases (is_truthy (get_or (get "text" b) (str "")))) [
      | inl u ↦ rw (blocks, t, u) (blocks-IsCountFrom bs index n has)
      | inr u ↦ rw (blocks, t, u) (blocks-IsCountFrom bs index n has)
    ]
    | inr f ↦ elim (Bool-cases (has_type b "tool_use")) [
      | inl t ↦ rw (blocks, f, t) (refl, blocks-IsCountFrom bs (suc index) (suc n) true)
      | inr g ↦ rw (blocks, f, g) (blocks-IsCountFrom bs index n has)
    ]
  ]
  blocks-IsCountFrom (cons v bs) index n has = blocks-IsCountFrom bs index n has
