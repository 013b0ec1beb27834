-- ===== src/Agent/Runner.antt =====
-- apps/api/services/agent/single_query_runner.py: `SingleQueryRunner.run`, of an executor that gives
-- a stream of events. The clock and logging are left out: the duration is an argument.
use claude_agent_api.Common.{true, String, [], ◌∷◌}
use claude_agent_api.Common.Int.{ℤ}
use claude_agent_api.Exec.{Outcome, ok, raise}
use claude_agent_api.Json.{Json, bool, str, obj, end, field}
use claude_agent_api.Agent.Context.{StreamContext}
use claude_agent_api.Agent.Aggregator.{
  Library, SseEvent, SingleQueryAggregator, new_aggregator, handle_event, QueryResponse, finalize,
}

-- What `async for` gets: events, each with the context as it is when the event is given, and at
-- last the end or an exception.
pub data Stream : Type 0 where
  stopped : Outcome (Unit {0}) → StreamContext → Stream
  next : SseEvent → StreamContext → Stream → Stream

-- The outcome of the `try` block, with the context and the aggregator that it leaves.
unfoldable pub drain :
    Library
    → Stream
    → SingleQueryAggregator
    → Outcome (Unit {0}) × StreamContext × SingleQueryAggregator
drain lib (stopped r ctx) agg = (r, ctx, agg)
drain lib (next e ctx rest) agg =
    let (r, after) = handle_event lib e agg in
    elim r [ ok done ↦ drain lib rest after | raise x ↦ (raise x, ctx, after) ]

abbrev pub error_block : Json
error_block = obj (field "type" (str "text") (field "text" (str "Error: Internal error") end))

abbrev pub conclude :
    String → String → ℤ → Outcome (Unit {0}) × StreamContext × SingleQueryAggregator → QueryResponse
conclude session_id model duration_ms (ok done, ctx, agg) =
    finalize agg session_id model ctx duration_ms
conclude session_id model duration_ms (raise x, ctx, agg) =
    finalize (record agg { content_blocks = error_block ∷ [] }) session_id model
      (record ctx { is_error = bool true }) duration_ms

unfoldable pub run : Library → Stream → String → String → ℤ → QueryResponse
unfolding drain
run lib stream session_id model duration_ms =
    conclude session_id model duration_ms (drain lib stream new_aggregator)
