-- ===== src/Assistants/Service.antt =====
-- apps/api/services/assistants/assistant_service.py: `AssistantService`, but for the listing. Logging
-- is left out. The id that `generate_assistant_id` draws and the time are arguments.
use Prim.Native.String.{◌++◌}
use mathlib.Core.Option.{get_or}
use mathlib.Core.Option
use claude_agent_api.Common.{
  ℕ, String, Bool, true, false, Option, none, some, [], ◌==◌, if◌then◌else◌,
}
use claude_agent_api.Exec.{
  Exn, Outcome, ok, raise, api_error, integrity_error, operational_error, Exec, pure, throw, lift,
  catch, ◌>>=◌, ◌>>◌,
}
use claude_agent_api.Json.{Dict, end, field}
use claude_agent_api.Runtime.{Runtime}
use claude_agent_api.Interfaces.{Cache}
use claude_agent_api.Sessions.Model.{truthy, hash_api_key}
use claude_agent_api.Assistants.Model.{
  Assistant, AssistantRow, AssistantFields, AssistantRepository, assistant_payload,
  parse_cached_assistant, map_assistant_row,
}

pub record AssistantService (W : Type 0) : Type 0 where
  pub cache : Option (Cache W)
  pub db_repo : Option (AssistantRepository W)
  pub ttl : ℕ

abbrev pub cache_key : String → String
cache_key assistant_id = "assistant:" ++ assistant_id

abbrev pub owner_index_key : String → String
owner_index_key owner_api_key_hash = "assistant:owner:" ++ owner_api_key_hash

-- `AssistantNotFoundError`
abbrev pub assistant_not_found : String → Exn
assistant_not_found id =
    api_error ("Assistant '" ++ (id ++ "' not found")) "ASSISTANT_NOT_FOUND" 404

-- The request's key, and the hash that the assistant keeps, where they are not empty: an assistant
-- without a hash is public.
unfoldable pub check_owner : Runtime → Assistant → Option String → Option String → Outcome Assistant
check_owner rt a none stored = ok a
check_owner rt a (some key) none = ok a
check_owner rt a (some key) (some stored) =
    if stored == hash_api_key rt key then ok a else raise (assistant_not_found a.id)

-- `_enforce_owner`
unfoldable pub enforce_owner : Runtime → Assistant → Option String → Outcome Assistant
enforce_owner rt a current_api_key =
    check_owner rt a (truthy current_api_key) (truthy a.owner_api_key_hash)

-- The `except` clauses round the database write of `create_assistant`.
unfoldable pub create_error : Exn → Exn
create_error integrity_error = api_error "Assistant already exists" "ALREADY_EXISTS" 409
create_error operational_error =
    api_error "Database temporarily unavailable" "DATABASE_UNAVAILABLE" 503
create_error e = api_error "Failed to create assistant" "INTERNAL_ERROR" 500

-- The assistant that `create_assistant` makes.
unfoldable pub new_assistant :
    Runtime → String → ℕ → String → AssistantFields → Option String → Assistant
new_assistant rt id now model fields owner_api_key = record {
  id = id;
  model = model;
  created_at = now;
  updated_at = now;
  name = fields.name;
  description = fields.description;
  instructions = fields.instructions;
  tools = get_or fields.tools [];
  metadata = get_or fields.metadata [];
  owner_api_key_hash = Option.map (hash_api_key rt) (truthy owner_api_key);
  temperature = fields.temperature;
  top_p = fields.top_p;
}

-- `if x is not None: a.x = x`
or_old : {A : Type 0} → Option A → Option A → Option A
or_old none old = old
or_old (some x) old = some x

-- The fields that `update_assistant` sets.
unfoldable pub apply_fields : ℕ → Option String → AssistantFields → Assistant → Assistant
unfolding or_old
apply_fields now model fields a = record a {
  model = get_or model a.model;
  name = or_old fields.name a.name;
  description = or_old fields.description a.description;
  instructions = or_old fields.instructions a.instructions;
  tools = get_or fields.tools a.tools;
  metadata = get_or fields.metadata a.metadata;
  temperature = or_old fields.temperature a.temperature;
  top_p = or_old fields.top_p a.top_p;
  updated_at = now;
}

-- the hash of the owner's key of an assistant that was found
owner_of : Option Assistant → Option String
owner_of none = none
owner_of (some a) = truthy a.owner_api_key_hash

module _ {W : Type 0} where
  index_owner : Cache W → Assistant → Option String → Exec W (Unit {0})
  index_owner c a none = pure tt
  index_owner c a (some owner) = do _ ← c.add_to_set (owner_index_key owner) a.id; pure tt

  remove_owner : Cache W → String → Option String → Exec W (Unit {0})
  remove_owner c id none = pure tt
  remove_owner c id (some owner) = do _ ← c.remove_from_set (owner_index_key owner) id; pure tt

module _ {W : Type 0} (rt : Runtime) (svc : AssistantService W) where
  -- `_cache_assistant`
  unfoldable pub cache_assistant : Assistant → Exec W (Unit {0})
  unfolding index_owner
  cache_assistant a = elim svc.cache [
    | none ↦ pure tt
    | some c ↦ do
      _ ← c.set_json (cache_key a.id) (assistant_payload rt a) (some svc.ttl)
      index_owner c a (truthy a.owner_api_key_hash)
  ]

  unfoldable pub read_assistant : Option Dict → Exec W (Option Assistant)
  read_assistant none = pure none
  read_assistant (some end) = pure none
  read_assistant (some (field k v d)) = lift (parse_cached_assistant rt (field k v d))

  -- `_get_cached_assistant`
  unfoldable pub get_cached_assistant : String → Exec W (Option Assistant)
  unfolding read_assistant
  get_cached_assistant assistant_id = elim svc.cache [
    | none ↦ pure none
    | some c ↦ do parsed ← c.get_json (cache_key assistant_id); read_assistant parsed
  ]

  unfoldable pub write_to_db : String → String → AssistantFields → Option String → Exec W (Unit {0})
  write_to_db id model fields owner_api_key = elim svc.db_repo [
    | none ↦ pure tt
    | some repo ↦
        catch (repo.create_assistant_row id model fields owner_api_key)
          (λ e. throw (create_error e))
  ]

  -- The repository gets the tools and the metadata with their defaults.
  unfoldable pub create_assistant :
      String → ℕ → String → AssistantFields → Option String → Exec W Assistant
  create_assistant id now model fields owner_api_key = do
    let a = new_assistant rt id now model fields owner_api_key
    write_to_db id model (record fields { tools = some a.tools; metadata = some a.metadata })
        owner_api_key
    catch (cache_assistant a) (λ _. pure tt)
    pure a

  -- The row of the database, enforced and cached again.
  unfoldable pub found_in_db : Option String → Option AssistantRow → Exec W (Option Assistant)
  found_in_db current_api_key none = pure none
  found_in_db current_api_key (some row) = do
    a ← lift (enforce_owner rt (map_assistant_row row) current_api_key)
    cache_assistant a
    pure (some a)

  -- Every exception of the `try` block is None.
  unfoldable pub get_from_db : String → Option String → Exec W (Option Assistant)
  get_from_db assistant_id current_api_key = elim svc.db_repo [
    | none ↦ pure none
    | some repo ↦
        catch (do row ← repo.get_assistant_row assistant_id; found_in_db current_api_key row)
          (λ _. pure none)
  ]

  unfoldable pub check_cached :
      String → Option String → Option Assistant → Exec W (Option Assistant)
  check_cached assistant_id current_api_key none = get_from_db assistant_id current_api_key
  check_cached assistant_id current_api_key (some cached) = do
    a ← lift (enforce_owner rt cached current_api_key)
    pure (some a)

  unfoldable pub get_assistant : String → Option String → Exec W (Option Assistant)
  unfolding check_cached
  get_assistant assistant_id current_api_key = do
    cached ← get_cached_assistant assistant_id
    check_cached assistant_id current_api_key cached

  update_db : String → Option String → AssistantFields → Exec W (Unit {0})
  update_db id model fields = elim svc.db_repo [
    | none ↦ pure tt
    | some repo ↦ do _ ← repo.update_assistant_row id model fields; pure tt
  ]

  unfoldable pub update_found :
      String → ℕ → Option String → AssistantFields → Option Assistant → Exec W (Option Assistant)
  unfolding update_db
  update_found id now model fields none = pure none
  update_found id now model fields (some a) = do
    let updated = apply_fields now model fields a
    update_db id model fields
    cache_assistant updated
    pure (some updated)

  unfoldable pub update_assistant :
      String → ℕ → Option String → AssistantFields → Option String → Exec W (Option Assistant)
  unfolding update_found
  update_assistant id now model fields current_api_key = do
    found ← get_assistant id current_api_key
    update_found id now model fields found

  unfoldable pub delete_row : String → Exec W Bool
  delete_row id = elim svc.db_repo [ none ↦ pure true | some repo ↦ repo.delete_assistant_row id ]

  unfoldable pub drop_cached : String → Option String → Exec W (Unit {0})
  unfolding remove_owner
  drop_cached id owner = elim svc.cache [
    | none ↦ pure tt
    | some c ↦ do _ ← c.delete (cache_key id); remove_owner c id owner
  ]

  unfoldable pub delete_assistant : String → Option String → Exec W Bool
  unfolding owner_of
  delete_assistant id current_api_key = do
    found ← get_assistant id current_api_key
    deleted ← delete_row id
    elim deleted [ true ↦ do _ ← drop_cached id (owner_of found); pure true | false ↦ pure false ]
