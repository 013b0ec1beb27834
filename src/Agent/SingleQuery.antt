-- ===== src/Agent/SingleQuery.antt =====
-- The response to a single query.
use mathlib.Core.List.{append_assoc}
use claude_agent_api.Common.{
  sym, ℕ, ◌+◌, String, ◌≡◌, refl, Bool, true, false, ◌&&◌, ◌||◌, List, [], ◌∷◌, ◌++◌, arith,
  if◌then◌else◌, ap, ◌∙◌, Option,
}
use claude_agent_api.Common.Int.{ℤ}
use claude_agent_api.Exec.{Outcome, ok, raise}
use claude_agent_api.Json.{Json, bool}
use claude_agent_api.Agent.Context.{StreamContext}
use claude_agent_api.Agent.Aggregator.{
  Library, SseEvent, SingleQueryAggregator, new_aggregator, handle_event, finalize, usage_or,
}
use claude_agent_api.Agent.Aggregation.{
  tally, content_in, usage_in, is_failure, is_sound, is_state, Adds, Adds-event, Adds-none,
}
use claude_agent_api.Agent.Runner.{Stream, stopped, next, drain, error_block, conclude, run}

abbrev pub events_of : Stream → List SseEvent
events_of (stopped r ctx) = []
events_of (next e ctx rest) = e ∷ events_of rest

abbrev pub ending : Stream → Outcome (Unit {0})
ending (stopped r ctx) = r
ending (next e ctx rest) = ending rest

abbrev pub last_context : Stream → StreamContext
last_context (stopped r ctx) = ctx
last_context (next e ctx rest) = last_context rest

module _ (lib : Library) where
  abbrev pub all_sound : List SseEvent → Bool
  all_sound [] = true
  all_sound (e ∷ es) = is_sound lib e && all_sound es

  abbrev pub contents : List SseEvent → List Json
  contents [] = []
  contents (e ∷ es) = content_in lib e ++ contents es

  abbrev pub any_failure : List SseEvent → Bool
  any_failure [] = false
  any_failure (e ∷ es) = is_failure lib e || any_failure es

  abbrev pub total : List SseEvent → String → ℕ
  total [] k = 0
  total (e ∷ es) k = tally (usage_in lib e) k + total es k

-- What the response holds, by the way the stream ended.
abbrev pub content_after : Outcome (Unit {0}) → List Json → List Json
content_after (ok done) blocks = blocks
content_after (raise x) blocks = error_block ∷ []

abbrev pub error_after : Outcome (Unit {0}) → Bool → Json → Json
error_after (ok done) failed reported = if failed then bool true else reported
error_after (raise x) failed reported = bool true

Adds-trans :
    {before mid after : SingleQueryAggregator} {r1 r2 : Outcome (Unit {0})} {b1 b2 : List Json}
    {f1 f2 : Bool} {u1 u2 : String → ℕ}
    → Adds before b1 f1 u1 r1 mid
    → Adds mid b2 f2 u2 r2 after
    → Adds before (b1 ++ b2) (f1 || f2) (λ k. u1 k + u2 k) r2 after
Adds-trans {before} {b1 = b1} {b2 = b2} {f1 = f1} {f2 = f2} a b = record {
  done = b.done;
  content = b.content ∙ ap (λ l. l ++ b2) a.content ∙ append_assoc before.content_blocks b1 b2;
  error = ground (arith, a.error, b.error);
  state = b.state;
  tally_lem = λ k. omega (arith, a.tally_lem k, b.tally_lem k);
}

record Drained (lib : Library) (stream : Stream) (agg : SingleQueryAggregator)
    (r : Outcome (Unit {0})) (ctx : StreamContext) (after : SingleQueryAggregator) : Type 0 where
  end_lem : r ≡ ending stream
  context_lem : ctx ≡ last_context stream
  adds :
      let events = events_of stream in
      Adds agg (contents lib events) (any_failure lib events) (total lib events) (ok tt) after

drain_lem :
    (lib : Library) (stream : Stream) (agg : SingleQueryAggregator)
    → all_sound lib (events_of stream) ≡ true
    → is_state agg.usage_data ≡ true
    → let (r, ctx, after) = drain lib stream agg in Drained lib stream agg r ctx after
unfolding drain
drain_lem lib (stopped r ctx) agg sound s = record {
  end_lem = refl;
  context_lem = refl;
  adds = Adds-none agg s;
}
drain_lem lib (next e ctx rest) agg sound s =
    let first = Adds-event lib e agg (ground (arith, sound)) s in
    let later = drain_lem lib rest (handle_event lib e agg).1 (ground (arith, sound)) first.state in
    rw (drain, first.done)
      (record {
        end_lem = later.end_lem;
        context_lem = later.context_lem;
        adds = Adds-trans first later.adds;
      })

conclude_lem :
    (lib : Library) (stream : Stream) (session_id model : String) (duration_ms : ℤ)
    (r : Outcome (Unit {0})) (ctx : StreamContext) (after : SingleQueryAggregator)
    → Drained lib stream new_aggregator r ctx after
    → let response = conclude session_id model duration_ms (r, ctx, after) in
      let events = events_of stream in
      (response.content ≡ content_after r (contents lib events))
      × (response.is_error ≡ error_after r (any_failure lib events) ctx.is_error)
      × ((usage : Option Json) × (response.usage ≡ usage_or ctx.usage usage)
          × ((k : String) → tally usage k ≡ total lib events k))
unfolding finalize
conclude_lem lib stream session_id model duration_ms (ok u) ctx after d = (
  d.adds.content,
  rw (d.adds.error) refl,
  (after.usage_data, refl, λ k. d.adds.tally_lem k ∙ omega arith),
)
conclude_lem lib stream session_id model duration_ms (raise x) ctx after d =
    (refl, ground arith, (after.usage_data, refl, λ k. d.adds.tally_lem k ∙ omega arith))

-- The response to a query holds what its stream of events said, if the events are sound. When the
-- stream ends, the content is that of the assistant's messages, in order; when it raises, it is
-- one block with an internal error. It is an error if the stream raised, or if an error event came,
-- or else as the context says. The usage is the context's, if it has one; if not, each count
-- in it is the sum of that count over all messages and results.
pub run_lem :
    (lib : Library) (stream : Stream) (session_id model : String) (duration_ms : ℤ)
    → all_sound lib (events_of stream) ≡ true
    → let response = run lib stream session_id model duration_ms in
      let events = events_of stream in
      let ctx = last_context stream in
      (response.content ≡ content_after (ending stream) (contents lib events))
      × (response.is_error ≡ error_after (ending stream) (any_failure lib events) ctx.is_error)
      × ((usage : Option Json) × (response.usage ≡ usage_or ctx.usage usage)
          × ((k : String) → tally usage k ≡ total lib events k))
unfolding run finalize
run_lem lib stream session_id model duration_ms sound =
    let d = drain_lem lib stream new_aggregator sound refl in
    rw (sym d.end_lem, sym d.context_lem)
      (conclude_lem lib stream session_id model duration_ms _ _ _ d)
