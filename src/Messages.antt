-- ===== src/Messages.antt =====
-- apps/api/services/assistants/message_service.py. Logging is left out. The id that
-- `generate_message_id` draws and the time, in seconds, are arguments.
pub mod RoundTrip
use Prim.Native.String.{◌++◌}
use mathlib.Core.Option.{get_or}
use claude_agent_api.Common.{
  ℕ, String, Bool, true, false, Option, none, some, List, [], ◌∷◌, map, ltb, length, take, head?,
  last?, ◌==◌, if◌then◌else◌,
}
use claude_agent_api.Common.Int.{ℤ, lebℤ}
use claude_agent_api.Common.Sorting.{sort}
use claude_agent_api.Exec.{Outcome, ok, Exec, pure, lift, ◌>>=◌, ◌>>=?◌}
use claude_agent_api.Interfaces.{Cache}
use claude_agent_api.Json.{
  Json, Items, Dict, int, str, arr, obj, nil, cons, end, field, get, items_of, of_strings, opt_str,
}
use claude_agent_api.Payload.{required_str, int_or_zero, truthy_str, str_entries}
use claude_agent_api.Runtime.{Runtime, to_str}
use claude_agent_api.Sessions.CacheManager.{none_on_bad_data}

pub data Role : Type 0 where
  user assistant : Role

unfoldable pub role_text : Role → String
role_text user = "user"
role_text assistant = "assistant"

-- A content block is a text with no annotations: the service makes and reads no other.
pub record Message : Type 0 where
  pub id : String
  pub thread_id : String
  pub created_at : ℤ
  pub role : Role
  pub content : List String
  pub metadata : List (String × String)
  pub assistant_id : Option String
  pub run_id : Option String

pub record MessageListResult : Type 0 where
  pub messages : List Message
  pub first_id : Option String
  pub last_id : Option String
  pub has_more : Bool

pub record MessageService (W : Type 0) : Type 0 where
  pub cache : Option (Cache W)
  pub ttl : ℕ

abbrev pub cache_key : String → String → String
cache_key thread_id message_id = "message:" ++ (thread_id ++ (":" ++ message_id))

-- {"type": "text", "text": {"value": content, "annotations": []}}
unfoldable pub text_block : String → Json
text_block content = obj (
    field "type" (str "text")
      (field "text" (obj (field "value" (str content) (field "annotations" (arr nil) end))) end))

-- The payload that `_cache_message` writes.
unfoldable pub message_payload : Message → Dict
unfolding role_text
message_payload m = field "id" (str m.id) (
    field "thread_id" (str m.thread_id) (
      field "created_at" (int m.created_at) (
        field "role" (str (role_text m.role)) (
          field "content" (arr (items_of (map text_block m.content))) (
            field "metadata" (obj (of_strings m.metadata)) (
              field "assistant_id" (opt_str m.assistant_id)
                (field "run_id" (opt_str m.run_id) end)))))))

unfoldable pub parse_role : String → Role
parse_role s = if s == "user" then user else assistant

-- `text_data`, where it is a dict
block_value : Runtime → Option Json → Option String
unfolding get
block_value rt none = some ""
block_value rt (some (obj d)) = some (to_str rt (get_or (get "value" d) (str "")))
block_value rt (some v) = none

-- The text of a block of the type "text".
block_text : Runtime → Json → Option String
unfolding get block_value
block_text rt (obj d) = elim (get "type" d) [
  | none ↦ none
  | some t ↦ elim t [
    | str s ↦ if s == "text" then block_value rt (get "text" d) else none
    | _ ↦ none
  ]
]
block_text rt v = none

unfoldable pub block_texts : Runtime → Items → List String
unfolding block_text
block_texts rt nil = []
block_texts rt (cons b bs) =
    let rest = block_texts rt bs in elim (block_text rt b) [ none ↦ rest | some s ↦ s ∷ rest ]

unfoldable pub parse_content : Runtime → Option Json → List String
parse_content rt (some (arr bs)) = block_texts rt bs
parse_content rt v = []

-- The body of the `try` block of `_parse_cached_message`.
parse_payload : Runtime → Dict → Outcome Message
unfolding get
parse_payload rt d = required_str rt (get "id" d) >>=? λ id.
    required_str rt (get "thread_id" d) >>=? λ thread_id.
    int_or_zero rt (get "created_at" d) >>=? λ created_at.
    required_str rt (get "role" d) >>=? λ role. ok (record {
      id = id;
      thread_id = thread_id;
      created_at = created_at;
      role = parse_role role;
      content = parse_content rt (get "content" d);
      metadata = str_entries (get "metadata" d);
      assistant_id = truthy_str rt (get "assistant_id" d);
      run_id = truthy_str rt (get "run_id" d);
    })

unfoldable pub parse_cached_message : Runtime → Dict → Outcome (Option Message)
unfolding parse_payload none_on_bad_data
parse_cached_message rt d = none_on_bad_data (parse_payload rt d)

-- The message that `create_message` makes.
unfoldable pub new_message :
    String
    → ℤ
    → String
    → Role
    → String
    → Option (List (String × String))
    → Option String
    → Option String
    → Message
new_message id now thread_id role content metadata assistant_id run_id = record {
  id = id;
  thread_id = thread_id;
  created_at = now;
  role = role;
  content = content ∷ [];
  metadata = get_or metadata [];
  assistant_id = assistant_id;
  run_id = run_id;
}

unfoldable pub parse_messages : Runtime → List (Option Dict) → Outcome (List Message)
parse_messages rt [] = ok []
parse_messages rt (none ∷ rows) = parse_messages rt rows
parse_messages rt (some end ∷ rows) = parse_messages rt rows
parse_messages rt (some (field k v d) ∷ rows) =
    parse_cached_message rt (field k v d) >>=? λ message.
    parse_messages rt rows >>=? λ rest. ok (elim message [ none ↦ rest | some m ↦ m ∷ rest ])

unfoldable pub comes_first : String → Message → Message → Bool
comes_first order a b =
    if order == "desc" then lebℤ b.created_at a.created_at else lebℤ a.created_at b.created_at

unfoldable pub page_of_messages : ℕ → String → List Message → MessageListResult
page_of_messages limit order messages =
    let page = take limit (sort (comes_first order) messages) in
    record {
      messages = page;
      first_id = elim (head? page) [ none ↦ none | some m ↦ some m.id ];
      last_id = elim (last? page) [ none ↦ none | some m ↦ some m.id ];
      has_more = ltb limit (length messages);
    }

module _ {W : Type 0} (rt : Runtime) (svc : MessageService W) where
  unfoldable pub cache_message : Message → Exec W (Unit {0})
  cache_message m = elim svc.cache [
    | none ↦ pure tt
    | some c ↦ do
      _ ← c.set_json (cache_key m.thread_id m.id) (message_payload m) (some svc.ttl)
      pure tt
  ]

  unfoldable pub create_message :
      String
      → ℤ
      → String
      → Role
      → String
      → Option (List (String × String))
      → Option String
      → Option String
      → Exec W Message
  create_message id now thread_id role content metadata assistant_id run_id = do
    let m = new_message id now thread_id role content metadata assistant_id run_id
    _ ← cache_message m
    pure m

  read_message : Option Dict → Exec W (Option Message)
  read_message none = pure none
  read_message (some end) = pure none
  read_message (some (field k v d)) = lift (parse_cached_message rt (field k v d))

  unfoldable pub get_message : String → String → Exec W (Option Message)
  unfolding read_message
  get_message thread_id message_id = elim svc.cache [
    | none ↦ pure none
    | some c ↦ do parsed ← c.get_json (cache_key thread_id message_id); read_message parsed
  ]

  modify_found : Option (List (String × String)) → Option Message → Exec W (Option Message)
  modify_found metadata none = pure none
  modify_found metadata (some m) = do
    let modified = record m { metadata = get_or metadata m.metadata }
    _ ← cache_message modified
    pure (some modified)

  unfoldable pub modify_message :
      String → String → Option (List (String × String)) → Exec W (Option Message)
  unfolding modify_found
  modify_message thread_id message_id metadata = do
    found ← get_message thread_id message_id
    modify_found metadata found

  no_messages : MessageListResult
  no_messages = record { messages = []; first_id = none; last_id = none; has_more = false }

  list_cached : Cache W → ℕ → String → List String → Exec W MessageListResult
  list_cached c limit order keys = do
    cached_rows ← c.get_many_json keys
    messages ← lift (parse_messages rt cached_rows)
    pure (page_of_messages limit order messages)

  unfoldable pub list_messages : String → ℕ → String → Exec W MessageListResult
  unfolding list_cached no_messages
  list_messages thread_id limit order = elim svc.cache [
    | none ↦ pure no_messages
    | some c ↦ do
      keys ← c.scan_keys ("message:" ++ (thread_id ++ ":*")) 1000
      elim keys [ [] ↦ pure no_messages | k ∷ ks ↦ list_cached c limit order (k ∷ ks) ]
  ]
