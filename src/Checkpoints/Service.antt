-- ===== src/Checkpoints/Service.antt =====
-- apps/api/services/checkpoint.py: `CheckpointService`. Logging is left out. The id that `uuid4`
-- draws and the time are arguments.
use Prim.Native.String.{◌++◌}
use claude_agent_api.Common.{
  ℕ, String, Bool, false, Option, none, some, List, [], ◌∷◌, map, leb, ◌==◌, if◌then◌else◌,
}
use claude_agent_api.Common.Sorting.{sort}
use claude_agent_api.Exec.{Outcome, ok, Exec, pure, lift, ◌>>=◌, ◌>>◌, ◌>>=?◌}
use claude_agent_api.Json.{
  Json, Items, Dict, str, arr, obj, nil, cons, end, field, get, put, items_of, list_of,
}
use claude_agent_api.Payload.{required_str, dict_list}
use claude_agent_api.Runtime.{Runtime, to_str}
use claude_agent_api.Interfaces.{Cache}
use claude_agent_api.Sessions.CacheManager.{none_on_bad_data}

pub record Checkpoint : Type 0 where
  pub id : String
  pub session_id : String
  pub user_message_uuid : String
  pub created_at : ℕ
  pub files_modified : List String

pub record CheckpointService (W : Type 0) : Type 0 where
  pub cache : Option (Cache W)
  pub ttl : ℕ

abbrev pub checkpoints_key : String → String
checkpoints_key session_id = "checkpoints:" ++ session_id

abbrev pub checkpoint_key : String → String
checkpoint_key checkpoint_id = "checkpoint:" ++ checkpoint_id

abbrev pub uuid_index_key : String → String
uuid_index_key user_message_uuid = "checkpoint_uuid_index:" ++ user_message_uuid

-- `CachedCheckpointData`
unfoldable pub checkpoint_data : Runtime → Checkpoint → Dict
checkpoint_data rt c = field "id" (str c.id) (
    field "session_id" (str c.session_id) (
      field "user_message_uuid" (str c.user_message_uuid) (
        field "created_at" (str (rt.isoformat c.created_at))
          (field "files_modified" (arr (items_of (map str c.files_modified))) end))))

-- `[str(f) for f in raw]` of a list, and nothing of anything else
unfoldable pub files_of : Runtime → Option Json → List String
files_of rt (some (arr xs)) = map (to_str rt) (list_of xs)
files_of rt v = []

-- The body of the `try` block of `_parse_checkpoint_data`.
unfoldable pub parse_payload : Runtime → Dict → Outcome Checkpoint
unfolding get
parse_payload rt d = required_str rt (get "id" d) >>=? λ id.
    required_str rt (get "session_id" d) >>=? λ session_id.
    required_str rt (get "user_message_uuid" d) >>=? λ user_message_uuid.
    required_str rt (get "created_at" d) >>=? λ created_at_str.
    rt.fromisoformat created_at_str >>=? λ created_at. ok (record {
      id = id;
      session_id = session_id;
      user_message_uuid = user_message_uuid;
      created_at = created_at;
      files_modified = files_of rt (get "files_modified" d);
    })

unfoldable pub parse_checkpoint_data : Runtime → Dict → Outcome (Option Checkpoint)
unfolding parse_payload none_on_bad_data
parse_checkpoint_data rt d = none_on_bad_data (parse_payload rt d)

-- The dicts among the entries of a session's list.
unfoldable pub parse_all : Runtime → List Dict → Outcome (List Checkpoint)
parse_all rt [] = ok []
parse_all rt (d ∷ ds) = parse_checkpoint_data rt d >>=? λ checkpoint.
    parse_all rt ds >>=? λ rest. ok (elim checkpoint [ none ↦ rest | some c ↦ c ∷ rest ])

abbrev pub oldest_first : Checkpoint → Checkpoint → Bool
oldest_first a b = leb a.created_at b.created_at

unfoldable pub add_item : Json → Items → Items
add_item v nil = cons v nil
add_item v (cons u xs) = cons u (add_item v xs)

-- The list of a session with one more entry; what is no list is replaced.
unfoldable pub appended : Json → Option Json → Items
appended v (some (arr xs)) = add_item v xs
appended v raw = cons v nil

listed_or_new : Option Dict → Dict
listed_or_new none = field "checkpoints" (arr nil) end
listed_or_new (some d) = d

unfoldable pub with_entry : Runtime → Checkpoint → Option Dict → Dict
unfolding listed_or_new
with_entry rt c found =
    let d = listed_or_new found in
    put "checkpoints" (arr (appended (obj (checkpoint_data rt c)) (get "checkpoints" d))) d

module _ {W : Type 0} (rt : Runtime) (svc : CheckpointService W) where
  unfoldable pub cache_checkpoint : Checkpoint → Exec W (Unit {0})
  cache_checkpoint c = elim svc.cache [
    | none ↦ pure tt
    | some cache ↦ do
      _ ← cache.set_json (checkpoint_key c.id) (checkpoint_data rt c) (some svc.ttl)
      pure tt
  ]

  unfoldable pub add_to_session_checkpoints : Checkpoint → Exec W (Unit {0})
  add_to_session_checkpoints c = elim svc.cache [
    | none ↦ pure tt
    | some cache ↦ do
      found ← cache.get_json (checkpoints_key c.session_id)
      _ ← cache.set_json (checkpoints_key c.session_id) (with_entry rt c found) (some svc.ttl)
      pure tt
  ]

  unfoldable pub create_uuid_index : Checkpoint → Exec W (Unit {0})
  create_uuid_index c = elim svc.cache [
    | none ↦ pure tt
    | some cache ↦ do
      _ ← cache.cache_set (uuid_index_key c.user_message_uuid) c.id (some svc.ttl)
      pure tt
  ]

  unfoldable pub create_checkpoint :
      (fresh : String) (now : ℕ) (session_id user_message_uuid : String)
      (files_modified : List String)
      → Exec W Checkpoint
  create_checkpoint fresh now session_id user_message_uuid files_modified = do
    let c : Checkpoint = record {
      id = fresh;
      session_id = session_id;
      user_message_uuid = user_message_uuid;
      created_at = now;
      files_modified = files_modified;
    }
    cache_checkpoint c
    add_to_session_checkpoints c
    create_uuid_index c
    pure c

  read_checkpoint : Option Dict → Exec W (Option Checkpoint)
  read_checkpoint none = pure none
  read_checkpoint (some end) = pure none
  read_checkpoint (some (field k v d)) = lift (parse_checkpoint_data rt (field k v d))

  -- `get_checkpoint` and `_get_cached_checkpoint`
  unfoldable pub get_checkpoint : String → Exec W (Option Checkpoint)
  unfolding read_checkpoint
  get_checkpoint checkpoint_id = elim svc.cache [
    | none ↦ pure none
    | some cache ↦ do parsed ← cache.get_json (checkpoint_key checkpoint_id); read_checkpoint parsed
  ]

  found_id : Option String → Exec W (Option Checkpoint)
  found_id none = pure none
  found_id (some id) = if id == "" then pure none else get_checkpoint id

  unfoldable pub get_checkpoint_by_user_message_uuid : String → Exec W (Option Checkpoint)
  unfolding found_id
  get_checkpoint_by_user_message_uuid user_message_uuid = elim svc.cache [
    | none ↦ pure none
    | some cache ↦ do
      checkpoint_id ← cache.get_text (uuid_index_key user_message_uuid)
      found_id checkpoint_id
  ]

  -- What `list_checkpoints` parses of the payload of a session.
  unfoldable pub entries : Option Dict → List Dict
  entries none = []
  entries (some d) = dict_list (get "checkpoints" d)

  unfoldable pub list_checkpoints : String → Exec W (List Checkpoint)
  unfolding entries
  list_checkpoints session_id = elim svc.cache [
    | none ↦ pure []
    | some cache ↦ do
      found ← cache.get_json (checkpoints_key session_id)
      checkpoints ← lift (parse_all rt (entries found))
      pure (sort oldest_first checkpoints)
  ]

  unfoldable pub belongs : String → Option Checkpoint → Bool
  belongs session_id none = false
  belongs session_id (some c) = c.session_id == session_id

  unfoldable pub validate_checkpoint : String → String → Exec W Bool
  unfolding belongs
  validate_checkpoint session_id checkpoint_id = do
    checkpoint ← get_checkpoint checkpoint_id
    pure (belongs session_id checkpoint)
