-- ===== src/Agent/Aggregation.antt =====
-- What `SingleQueryAggregator` collects from the events of a query.
use mathlib.Core.List.{append-nil}
use claude_agent_api.Payload.{iterate, is_truthy}
use claude_agent_api.Common.{
  eq_iff, ◌==◌, ap, ◌∙◌, sym, ℕ, ◌+◌, String, ◌≡◌, refl, Bool, true, false, ◌&&◌, ◌||◌, Option,
  none, some, List, [], ◌++◌, arith, Bool-cases, inl, inr, if◌then◌else◌,
}
use claude_agent_api.Exec.{Outcome, ok, ◌>>=◌}
use claude_agent_api.Json.{Json, Dict, null, obj, arr, end, field, get, list_of}
use claude_agent_api.OpenAi.Tools.{has_type}
use claude_agent_api.Agent.Handlers.{is_named}
use claude_agent_api.Agent.Aggregator.{
  payload, on_data, copy, add_to, Library, SseEvent, SingleQueryAggregator, accumulate_usage,
  handle_message, handle_result, handle_event,
}
use claude_agent_api.Agent.Usage.{is_counts, count, add_entries_lem}

-- A usage that is missing, None or a dict of counts.
abbrev pub is_usage : Option Json → Bool
is_usage none = true
is_usage (some null) = true
is_usage (some (obj d)) = is_counts d
is_usage (some v) = false

abbrev pub tally : Option Json → String → ℕ
tally (some (obj d)) k = count k d
tally v k = 0

abbrev pub is_list : Option Json → Bool
is_list none = true
is_list (some (arr xs)) = true
is_list (some v) = false

abbrev pub listed : Option Json → List Json
listed (some (arr xs)) = list_of xs
listed v = []

-- What one event says: the content blocks of an assistant's message, and the usage of such a
-- message or of a result.
abbrev pub blocks_of : Option Json → List Json
blocks_of (some (obj d)) = if has_type d "assistant" then listed (get "content" d) else []
blocks_of v = []

abbrev pub message_usage : Option Json → Option Json
message_usage (some (obj d)) = if has_type d "assistant" then get "usage" d else none
message_usage v = none

abbrev pub result_usage : Option Json → Option Json
result_usage (some (obj d)) = get "usage" d
result_usage v = none

-- What is no JSON, or what is a dict.
abbrev pub is_dict : Option Json → Bool
is_dict none = true
is_dict (some (obj d)) = true
is_dict (some v) = false

abbrev pub has_list : Option Json → Bool
has_list (some (obj d)) = is_list (get "content" d)
has_list v = true

module _ (lib : Library) where
  abbrev pub content_in : SseEvent → List Json
  content_in e = if is_named e.event "message" then blocks_of (payload lib e) else []

  abbrev pub usage_in : SseEvent → Option Json
  usage_in e =
      if is_named e.event "message"
      then message_usage (payload lib e)
      else if is_named e.event "result"
      then result_usage (payload lib e)
      else none

  abbrev pub is_failure : SseEvent → Bool
  is_failure e = is_named e.event "error"

  -- Messages and results have a dict as their data, a message's content is a list, and a usage
  -- holds counts.
  abbrev pub is_sound : SseEvent → Bool
  is_sound e =
      is_usage (usage_in e)
      && (if is_named e.event "message"
          then is_dict (payload lib e) && has_list (payload lib e)
          else if is_named e.event "result"
          then is_dict (payload lib e)
          else true)

-- The state of an aggregator that has counts only.
abbrev pub is_state : Option Json → Bool
is_state none = true
is_state (some (obj d)) = is_counts d
is_state (some v) = false

-- What a step adds.
pub record Adds (before : SingleQueryAggregator) (blocks : List Json) (failed : Bool)
    (usage : String → ℕ) (r : Outcome (Unit {0})) (after : SingleQueryAggregator) : Type 0 where
  pub done : r ≡ ok tt
  pub content : after.content_blocks ≡ before.content_blocks ++ blocks
  pub error : after.is_error ≡ (before.is_error || failed)
  pub state : is_state after.usage_data ≡ true
  pub tally_lem : (k : String) → tally after.usage_data k ≡ tally before.usage_data k + usage k

pub Adds-none :
    (agg : SingleQueryAggregator)
    → is_state agg.usage_data ≡ true
    → Adds agg [] false (λ k. 0) (ok tt) agg
Adds-none agg s = record {
  done = refl;
  content = sym (append-nil agg.content_blocks);
  error = ground arith;
  state = s;
  tally_lem = λ k. omega arith;
}

Adds-usage :
    (lib : Library) (d : Dict) (agg : SingleQueryAggregator) (old : Option Json)
    → agg.usage_data ≡ old
    → is_truthy (obj d) ≡ true
    → is_counts d ≡ true
    → is_state old ≡ true
    → let (r, after) = accumulate_usage lib (some (obj d)) agg in
      Adds agg [] false (λ k. count k d) r after
unfolding accumulate_usage add_to copy
Adds-usage lib d agg none e t u s =
    rw (t, e)
      (record {
        done = refl;
        content = sym (append-nil agg.content_blocks);
        error = ground arith;
        state = u;
        tally_lem = λ k. omega arith;
      })
Adds-usage lib d agg (some (obj old)) e t u s =
    let sums = add_entries_lem lib d old u s in
    rw (t, e)
      (record {
        done = sums.done;
        content = sym (append-nil agg.content_blocks);
        error = ground arith;
        state = sums.counts;
        tally_lem = sums.count_lem;
      })
Adds-usage lib d agg (some v) e t u s = cc

Adds-accumulate :
    (lib : Library) (usage : Option Json) (agg : SingleQueryAggregator)
    → is_usage usage ≡ true
    → is_state agg.usage_data ≡ true
    → let (r, after) = accumulate_usage lib usage agg in Adds agg [] false (tally usage) r after
unfolding accumulate_usage is_truthy get
Adds-accumulate lib none agg u s = Adds-none agg s
Adds-accumulate lib (some null) agg u s = Adds-none agg s
Adds-accumulate lib (some (obj end)) agg u s = Adds-none agg s
Adds-accumulate lib (some (obj (field k v d))) agg u s =
    Adds-usage lib (field k v d) agg agg.usage_data refl refl u s
Adds-accumulate lib (some v) agg u s = cc

-- New content before a step that adds none.
Adds-content :
    (agg : SingleQueryAggregator) (blocks : List Json) (usage : String → ℕ) {r : Outcome (Unit {0})}
    {after : SingleQueryAggregator}
    → Adds (record agg { content_blocks = agg.content_blocks ++ blocks }) [] false usage r after
    → Adds agg blocks false usage r after
Adds-content agg blocks usage a = record {
  done = a.done;
  content = a.content ∙ append-nil (agg.content_blocks ++ blocks);
  error = a.error;
  state = a.state;
  tally_lem = a.tally_lem;
}

iterate_lem : (v : Option Json) → is_list v ≡ true → iterate v ≡ ok (listed v)
unfolding iterate
iterate_lem none h = refl
iterate_lem (some (arr xs)) h = refl
iterate_lem (some v) h = cc

Adds-message :
    (lib : Library) (d : Dict) (agg : SingleQueryAggregator)
    → is_list (get "content" d) ≡ true
    → is_usage (message_usage (some (obj d))) ≡ true
    → is_state agg.usage_data ≡ true
    → let (r, after) = handle_message lib (obj d) agg in
      Adds agg (blocks_of (some (obj d))) false (tally (message_usage (some (obj d)))) r after
unfolding handle_message ◌>>=◌
Adds-message lib d agg l u s = elim (Bool-cases (has_type d "assistant")) [
  | inl e ↦
      let usage = ap (λ b. is_usage (if b then get "usage" d else none)) (sym e) ∙ u in
      rw (e, iterate_lem (get "content" d) l)
        (Adds-content agg (listed (get "content" d)) (tally (get "usage" d))
          (Adds-accumulate lib (get "usage" d) _ usage s))
  | inr e ↦ rw (e) (Adds-none agg s)
]

Adds-message_data :
    (lib : Library) (v : Option Json) (agg : SingleQueryAggregator)
    → (is_dict v && has_list v) ≡ true
    → is_usage (message_usage v) ≡ true
    → is_state agg.usage_data ≡ true
    → let (r, after) = on_data (handle_message lib) v agg in
      Adds agg (blocks_of v) false (tally (message_usage v)) r after
Adds-message_data lib none agg l u s = Adds-none agg s
Adds-message_data lib (some (obj d)) agg l u s = Adds-message lib d agg l u s
Adds-message_data lib (some v) agg l u s = cc

Adds-result_data :
    (lib : Library) (v : Option Json) (agg : SingleQueryAggregator)
    → is_dict v ≡ true
    → is_usage (result_usage v) ≡ true
    → is_state agg.usage_data ≡ true
    → let (r, after) = on_data (handle_result lib) v agg in
      Adds agg [] false (tally (result_usage v)) r after
unfolding handle_result
Adds-result_data lib none agg l u s = Adds-none agg s
Adds-result_data lib (some (obj d)) agg l u s = Adds-accumulate lib (get "usage" d) agg u s
Adds-result_data lib (some v) agg l u s = cc

-- A name is one only.
named_apart :
    (o : Option String) (p q : String)
    → (p == q) ≡ false
    → is_named o p ≡ true
    → is_named o q ≡ false
named_apart none p q h e = refl
named_apart (some s) p q h e = rw ((eq_iff s p).0 e) h

pub Adds-event :
    (lib : Library) (e : SseEvent) (agg : SingleQueryAggregator)
    → is_sound lib e ≡ true
    → is_state agg.usage_data ≡ true
    → let (r, after) = handle_event lib e agg in
      Adds agg (content_in lib e) (is_failure lib e) (tally (usage_in lib e)) r after
unfolding handle_event
Adds-event lib e agg sound s = elim (Bool-cases (is_named e.event "message")) [
  | inl m ↦
      rw (m, named_apart e.event "message" "error" refl m)
        (Adds-message_data lib (payload lib e) agg (ground (arith, sound, m))
          (ground (arith, sound, m)) s)
  | inr m ↦ elim (Bool-cases (is_named e.event "result")) [
    | inl r ↦
        rw (m, r, named_apart e.event "result" "error" refl r)
          (Adds-result_data lib (payload lib e) agg (ground (arith, sound, m, r))
            (ground (arith, sound, m, r)) s)
    | inr r ↦ elim (Bool-cases (is_named e.event "error")) [
      | inl f ↦
          rw (m, r, f)
            (record {
              done = refl;
              content = sym (append-nil agg.content_blocks);
              error = ground arith;
              state = s;
              tally_lem = λ k. omega arith;
            })
      | inr f ↦ rw (m, r, f) (Adds-none agg s)
    ]
  ]
]
