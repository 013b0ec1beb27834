-- ===== src/Assistants/Model.antt =====
-- apps/api/services/assistants/assistant_service.py: the data, the repository and the payload.
use mathlib.Core.Option.{get_or}
use claude_agent_api.Common.{ℕ, String, Bool, Option, none, some, List, [], map, if◌then◌else◌}
use claude_agent_api.Exec.{Outcome, ok, Exec, ◌>>=?◌}
use claude_agent_api.Json.{
  Json, Dict, str, arr, obj, end, field, get, items_of, of_strings, opt_str, opt_float,
}
use claude_agent_api.Payload.{required_str, truthy_str, str_entries, dict_list, is_truthy}
use claude_agent_api.Runtime.{Runtime, to_str}
use claude_agent_api.Sessions.CacheManager.{none_on_bad_data}

-- `response_format` is never set.
pub record Assistant : Type 0 where
  pub id : String
  pub model : String
  pub created_at : ℕ
  pub updated_at : ℕ
  pub name : Option String
  pub description : Option String
  pub instructions : Option String
  pub tools : List Dict
  pub metadata : List (String × String)
  pub owner_api_key_hash : Option String
  pub temperature : Option ℕ
  pub top_p : Option ℕ

-- `DbAssistant`
pub record AssistantRow : Type 0 where
  pub id : String
  pub model : String
  pub created_at : ℕ
  pub updated_at : ℕ
  pub name : Option String
  pub description : Option String
  pub instructions : Option String
  pub tools : List Dict
  pub metadata_ : Option (List (String × String))
  pub owner_api_key_hash : Option String
  pub temperature : Option ℕ
  pub top_p : Option ℕ

-- The arguments of a creation. In an update, None leaves a field.
pub record AssistantFields : Type 0 where
  pub name : Option String
  pub description : Option String
  pub instructions : Option String
  pub tools : Option (List Dict)
  pub metadata : Option (List (String × String))
  pub temperature : Option ℕ
  pub top_p : Option ℕ

pub record AssistantRepository (W : Type 0) : Type 0 where
  -- id, model, the other fields, owner's API key
  pub create_assistant_row : String → String → AssistantFields → Option String → Exec W (Unit {0})
  pub get_assistant_row : String → Exec W (Option AssistantRow)
  -- owner's API key, limit, offset, order, after, before; the rows and the total
  pub list_assistant_rows :
      Option String
      → ℕ
      → ℕ
      → String
      → Option String
      → Option String
      → Exec W (List AssistantRow × ℕ)
  -- id, model, the other fields
  pub update_assistant_row : String → Option String → AssistantFields → Exec W Bool
  pub delete_assistant_row : String → Exec W Bool

-- The payload that `_cache_assistant` writes.
unfoldable pub assistant_payload : Runtime → Assistant → Dict
assistant_payload rt a = field "id" (str a.id) (
    field "model" (str a.model) (
      field "name" (opt_str a.name) (
        field "description" (opt_str a.description) (
          field "instructions" (opt_str a.instructions) (
            field "tools" (arr (items_of (map obj a.tools))) (
              field "metadata" (obj (of_strings a.metadata)) (
                field "owner_api_key_hash" (opt_str a.owner_api_key_hash) (
                  field "temperature" (opt_float a.temperature) (
                    field "top_p" (opt_float a.top_p) (
                      field "created_at" (str (rt.isoformat a.created_at))
                        (field "updated_at" (str (rt.isoformat a.updated_at)) end)))))))))))

-- `str(parsed.get(k, ""))`
unfoldable pub text_of : Runtime → Option Json → String
text_of rt v = to_str rt (get_or v (str ""))

-- `float(str(v)) if v else None`
unfoldable pub truthy_float : Runtime → Option Json → Outcome (Option ℕ)
truthy_float rt none = ok none
truthy_float rt (some v) =
    if is_truthy v then (rt.float_of_str (to_str rt v) >>=? λ x. ok (some x)) else ok none

-- The body of the `try` block of `_parse_cached_assistant`.
unfoldable pub parse_payload : Runtime → Dict → Outcome Assistant
unfolding get text_of truthy_float
parse_payload rt d = rt.fromisoformat (text_of rt (get "created_at" d)) >>=? λ created_at.
    rt.fromisoformat (text_of rt (get "updated_at" d)) >>=? λ updated_at.
    required_str rt (get "id" d) >>=? λ id. required_str rt (get "model" d) >>=? λ model.
    truthy_float rt (get "temperature" d) >>=? λ temperature.
    truthy_float rt (get "top_p" d) >>=? λ top_p. ok (record {
      id = id;
      model = model;
      created_at = created_at;
      updated_at = updated_at;
      name = truthy_str rt (get "name" d);
      description = truthy_str rt (get "description" d);
      instructions = truthy_str rt (get "instructions" d);
      tools = dict_list (get "tools" d);
      metadata = str_entries (get "metadata" d);
      owner_api_key_hash = truthy_str rt (get "owner_api_key_hash" d);
      temperature = temperature;
      top_p = top_p;
    })

unfoldable pub parse_cached_assistant : Runtime → Dict → Outcome (Option Assistant)
unfolding parse_payload none_on_bad_data
parse_cached_assistant rt d = none_on_bad_data (parse_payload rt d)

-- `_map_db_to_service`
unfoldable pub map_assistant_row : AssistantRow → Assistant
map_assistant_row r = record {
  id = r.id;
  model = r.model;
  created_at = r.created_at;
  updated_at = r.updated_at;
  name = r.name;
  description = r.description;
  instructions = r.instructions;
  tools = r.tools;
  metadata = get_or r.metadata_ [];
  owner_api_key_hash = r.owner_api_key_hash;
  temperature = r.temperature;
  top_p = r.top_p;
}
