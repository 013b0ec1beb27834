-- ===== src/Agent/Aggregator.antt =====
-- apps/api/services/agent/single_query_aggregator.py: `SingleQueryAggregator`. Logging is left out.
use mathlib.Core.Option.{get_or}
use claude_agent_api.Payload.{iterate, is_truthy}
use claude_agent_api.Agent.Handlers.{is_named}
use claude_agent_api.Common.{
  ℕ, String, Bool, true, false, Option, none, some, List, [], ◌++◌, if◌then◌else◌,
}
use claude_agent_api.Common.Int.{ℤ, pos, ◌+ℤ◌, int_of_bool}
use claude_agent_api.Exec.{Outcome, ok, raise, Exn, other, type_error, Exec, lift, ◌>>=◌, ◌>>=?◌}
use claude_agent_api.Json.{Json, Dict, bool, int, float, arr, obj, end, field, get, put}
use claude_agent_api.Agent.Context.{StreamContext}
use claude_agent_api.OpenAi.Tools.{has_type}

-- `json.loads`, none for a `JSONDecodeError`, and float + int.
pub record Library : Type 0 where
  pub loads : String → Option Json
  pub float_plus : ℕ → ℤ → Outcome ℕ

-- The two keys of an event that are read.
pub record SseEvent : Type 0 where
  pub event : Option String
  pub data_ : Option String

pub record SingleQueryAggregator : Type 0 where
  pub content_blocks : List Json
  pub usage_data : Option Json
  pub is_error : Bool

abbrev pub new_aggregator : SingleQueryAggregator
new_aggregator = record { content_blocks = []; usage_data = none; is_error = false }

attribute_error : Exn
attribute_error = other "AttributeError"

-- `old + n`
unfoldable pub plus : Library → Json → ℤ → Outcome Json
plus lib (int m) n = ok (int (m +ℤ n))
plus lib (bool b) n = ok (int (int_of_bool b +ℤ n))
plus lib (float x) n = lib.float_plus x n >>=? λ y. ok (float y)
plus lib v n = raise type_error

-- isinstance(v, int), which takes a bool too
unfoldable pub int_in : Json → Option ℤ
int_in (int n) = some n
int_in (bool b) = some (int_of_bool b)
int_in v = none

-- d[k] = d.get(k, 0) + n
unfoldable pub plus_at : Library → String → ℤ → Dict → Outcome Dict
unfolding plus
plus_at lib k n d = plus lib (get_or (get k d) (int (pos 0))) n >>=? λ v. ok (put k v d)

-- The loop over `usage.items()`, on the dict in place: a raise keeps the additions before it.
unfoldable pub add_entries : Library → Dict → Exec Dict (Unit {0})
unfolding plus_at int_in ◌>>=◌
add_entries lib end d = (ok tt, d)
add_entries lib (field k v rest) d = elim (int_in v) [
  | none ↦ add_entries lib rest d
  | some n ↦ elim (plus_at lib k n d) [
    | raise e ↦ (raise e, d)
    | ok added ↦ add_entries lib rest added
  ]
]

has_int : Dict → Bool
unfolding int_in
has_int end = false
has_int (field k v d) = elim (int_in v) [ none ↦ has_int d | some n ↦ true ]

-- The items of a usage that is no dict cannot be read, nor can an integer be added to a list.
unfoldable pub add_to : Library → Json → Json → Exec SingleQueryAggregator (Unit {0})
unfolding has_int add_entries attribute_error
add_to lib (obj usage) (obj d) agg =
    let (r, after) = add_entries lib usage d in (r, record agg { usage_data = some (obj after) })
add_to lib (obj usage) old agg = (if has_int usage then raise attribute_error else ok tt, agg)
add_to lib usage old agg = (raise attribute_error, agg)

unfoldable pub copy : Json → Outcome Json
unfolding attribute_error
copy (obj d) = ok (obj d)
copy (arr xs) = ok (arr xs)
copy v = raise attribute_error

unfoldable pub accumulate_usage : Library → Option Json → Exec SingleQueryAggregator (Unit {0})
unfolding add_to copy has_int
accumulate_usage lib none agg = (ok tt, agg)
accumulate_usage lib (some usage) agg =
    if is_truthy usage
    then elim agg.usage_data [
      | some old ↦ add_to lib usage old agg
      | none ↦ elim (copy usage) [
        | ok d ↦ (ok tt, record agg { usage_data = some d })
        | raise e ↦ (raise e, agg)
      ]
    ]
    else (ok tt, agg)

-- The body of the `try` block of a message.
unfoldable pub handle_message : Library → Json → Exec SingleQueryAggregator (Unit {0})
unfolding attribute_error ◌>>=◌
handle_message lib (obj d) agg =
    if has_type d "assistant"
    then (lift (iterate (get "content" d)) >>= λ blocks agg1.
          accumulate_usage lib (get "usage" d)
            (record agg1 { content_blocks = agg1.content_blocks ++ blocks }))
        agg
    else (ok tt, agg)
handle_message lib v agg = (raise attribute_error, agg)

unfoldable pub handle_result : Library → Json → Exec SingleQueryAggregator (Unit {0})
unfolding attribute_error
handle_result lib (obj d) agg = accumulate_usage lib (get "usage" d) agg
handle_result lib v agg = (raise attribute_error, agg)

-- What is no JSON is only logged.
abbrev pub on_data :
    (Json → Exec SingleQueryAggregator (Unit {0}))
    → Option Json
    → Exec SingleQueryAggregator (Unit {0})
on_data f none agg = (ok tt, agg)
on_data f (some v) agg = f v agg

abbrev pub payload : Library → SseEvent → Option Json
payload lib e = lib.loads (get_or e.data_ "{}")

unfoldable pub handle_event : Library → SseEvent → Exec SingleQueryAggregator (Unit {0})
handle_event lib e agg =
    if is_named e.event "message"
    then on_data (handle_message lib) (payload lib e) agg
    else if is_named e.event "result"
    then on_data (handle_result lib) (payload lib e) agg
    else if is_named e.event "error"
    then (ok tt, record agg { is_error = true })
    else (ok tt, agg)

-- `QueryResponseDict`
pub record QueryResponse : Type 0 where
  pub session_id : String
  pub model : String
  pub content : List Json
  pub is_error : Json
  pub duration_ms : ℤ
  pub num_turns : Json
  pub total_cost_usd : Json
  pub usage : Option Json
  pub result : Json
  pub structured_output : Option Dict

-- `usage if usage else aggregated`
unfoldable pub usage_or : Option Dict → Option Json → Option Json
usage_or none aggregated = aggregated
usage_or (some end) aggregated = aggregated
usage_or (some (field k v d)) aggregated = some (obj (field k v d))

unfoldable pub finalize :
    SingleQueryAggregator → String → String → StreamContext → ℤ → QueryResponse
unfolding usage_or
finalize agg session_id model ctx duration_ms = record {
  session_id = session_id;
  model = model;
  content = agg.content_blocks;
  is_error = if agg.is_error then bool true else ctx.is_error;
  duration_ms = duration_ms;
  num_turns = ctx.num_turns;
  total_cost_usd = ctx.total_cost_usd;
  usage = usage_or ctx.usage agg.usage_data;
  result = ctx.result_text;
  structured_output = ctx.structured_output;
}
