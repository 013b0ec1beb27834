-- ===== src/Agent/Partial.antt =====
-- apps/api/services/agent/handlers.py: `MessageHandler` on partial messages.
use mathlib.Core.Option.{get_or}
use claude_agent_api.Common.{String, Option, none, some, if◌then◌else◌}
use claude_agent_api.Common.Int.{ℤ, pos}
use claude_agent_api.Exec.{Outcome, ok, ◌>>=?◌}
use claude_agent_api.Json.{Json, Dict, null, int, bool, obj, end, field, get}
use claude_agent_api.Payload.{is_truthy}
use claude_agent_api.OpenAi.Tools.{is_type}
use claude_agent_api.Agent.Context.{Block}
use claude_agent_api.Agent.Blocks.{empty_block, str_or_none, type_of}

-- What Pydantic makes of an `int` and of a `str | None` field.
pub record Validation : Type 0 where
  pub int_field : Json → Outcome ℤ
  pub opt_text_field : Json → Outcome (Option String)

-- A content block or delta: nothing, a dict, or anything else with its attributes.
pub data Child : Type 0 where
  no_child : Child
  dict_child object_child : Dict → Child

-- A partial message: a dict, or an object with its attributes and its content block or delta.
pub data Partial : Type 0 where
  dict_form : Dict → Partial
  object_form : Dict → Child → Partial

-- The index before it is validated.
raw_index : Partial → Json
raw_index (dict_form d) = elim (get "index" d) [
  | some (int n) ↦ int n
  | some (bool b) ↦ bool b
  | _ ↦ int (pos 0)
]
raw_index (object_form d c) = get_or (get "index" d) (int (pos 0))

-- A value under a key of a dict. Other values than dicts have no attribute that is read.
child_in : Option Json → Child
child_in none = no_child
child_in (some (obj end)) = no_child
child_in (some (obj (field k v d))) = dict_child (field k v d)
child_in (some v) = if is_truthy v then object_child end else no_child

child_of : String → Partial → Child
unfolding child_in
child_of key (dict_form d) = child_in (get key d)
child_of key (object_form d c) = c

partial_block : Dict → Block
partial_block d = record (empty_block (type_of (get "type" d))) {
  text_ = str_or_none (get "text" d);
  id = str_or_none (get "id" d);
  name = str_or_none (get "name" d);
}

start_block : Child → Option Block
unfolding partial_block
start_block no_child = none
start_block (dict_child end) = none
start_block (dict_child (field k v d)) = some (partial_block (field k v d))
start_block (object_child d) = some (partial_block d)

pub data DeltaType : Type 0 where
  text_delta thinking_delta input_json_delta : DeltaType

pub record ContentDelta : Type 0 where
  pub type_ : DeltaType
  pub text_ : Option String
  pub thinking_ : Option String
  pub partial_json : Option String

delta_type : Option Json → DeltaType
delta_type raw =
    if is_type raw "thinking_delta"
    then thinking_delta
    else if is_type raw "input_json_delta"
    then input_json_delta
    else text_delta

-- `x if delta_type == t else None`
for_type : {A : Type 0} → DeltaType → DeltaType → A → A → A
for_type text_delta text_delta x y = x
for_type thinking_delta thinking_delta x y = x
for_type input_json_delta input_json_delta x y = x
for_type t u x y = y

dict_delta : Dict → ContentDelta
unfolding delta_type for_type
dict_delta d =
    let t = delta_type (get "type" d) in
    record {
      type_ = t;
      text_ = for_type t text_delta (str_or_none (get "text" d)) none;
      thinking_ = for_type t thinking_delta (str_or_none (get "thinking" d)) none;
      partial_json = for_type t input_json_delta (str_or_none (get "partial_json" d)) none;
    }

object_delta : Validation → Dict → Outcome ContentDelta
unfolding delta_type for_type
object_delta v d =
    let t = delta_type (get "type" d) in
    let attribute : DeltaType → String → Json =
      λ u key. for_type t u (get_or (get key d) null) null in
    v.opt_text_field (attribute text_delta "text") >>=? λ text_value.
    v.opt_text_field (attribute thinking_delta "thinking") >>=? λ thinking_value.
    v.opt_text_field (attribute input_json_delta "partial_json") >>=? λ json_value. ok (record {
      type_ = t;
      text_ = text_value;
      thinking_ = thinking_value;
      partial_json = json_value;
    })

delta_in : Validation → Child → Outcome (Option ContentDelta)
unfolding dict_delta object_delta
delta_in v no_child = ok none
delta_in v (dict_child end) = ok none
delta_in v (dict_child (field k x d)) = ok (some (dict_delta (field k x d)))
delta_in v (object_child d) = object_delta v d >>=? λ delta. ok (some delta)

-- `PartialMessageEventData`, with the part that its type has.
pub data PartialEvent : Type 0 where
  block_start : ℤ → Option Block → PartialEvent
  block_delta : ℤ → Option ContentDelta → PartialEvent
  block_stop : ℤ → PartialEvent

unfoldable pub handle_partial_start : Validation → Partial → Outcome PartialEvent
unfolding raw_index child_of start_block
handle_partial_start v m = v.int_field (raw_index m) >>=? λ index.
    ok (block_start index (start_block (child_of "content_block" m)))

unfoldable pub handle_partial_delta : Validation → Partial → Outcome PartialEvent
unfolding raw_index child_of delta_in
handle_partial_delta v m = delta_in v (child_of "delta" m) >>=? λ delta.
    v.int_field (raw_index m) >>=? λ index. ok (block_delta index delta)

unfoldable pub handle_partial_stop : Validation → Partial → Outcome PartialEvent
unfolding raw_index
handle_partial_stop v m = v.int_field (raw_index m) >>=? λ index. ok (block_stop index)
