-- ===== src/Resources/Agents.antt =====
-- apps/api/services/agents.py: `AgentService`.
use Prim.Native.String.{◌++◌}
use claude_agent_api.Common.{String, Bool, true, false, Option, none, some, List, [], ◌∷◌, map}
use claude_agent_api.Exec.{ok, Exec, pure, ◌>>=◌, ◌>>◌}
use claude_agent_api.Json.{
  Json, Items, Dict, null, bool, str, arr, nil, cons, end, field, get, opt_str, items_of,
}
use claude_agent_api.Interfaces.{Cache}
use claude_agent_api.Runtime.{Runtime}
use claude_agent_api.Resources.Index.{
  Shelf, text_field, raw_at, list_all, get_one, put_record, add_record, remove_record,
}

-- `cast` checks nothing: five fields are kept as they are in the cache.
pub record AgentRecord : Type 0 where
  pub id : String
  pub name : String
  pub description : String
  pub prompt : String
  pub tools : Option (List String)
  pub model : Json
  pub created_at : String
  pub updated_at : Json
  pub is_shared : Json
  pub share_url : Json
  pub share_token : Json

abbrev pub agent_key : String → String
agent_key agent_id = "agent:" ++ agent_id

-- The texts of a list.
unfoldable pub texts_in : Items → List String
texts_in nil = []
texts_in (cons (str s) xs) = s ∷ texts_in xs
texts_in (cons v xs) = texts_in xs

-- `tools or None`
abbrev pub some_tools : List String → Option (List String)
some_tools [] = none
some_tools (t ∷ ts) = some (t ∷ ts)

unfoldable pub parse_tools : Option Json → Option (List String)
parse_tools (some (arr xs)) = some_tools (texts_in xs)
parse_tools v = none

unfoldable pub tools_value : Option (List String) → Json
tools_value none = null
tools_value (some ts) = arr (items_of (map str ts))

unfoldable pub agent_payload : AgentRecord → Dict
unfolding tools_value
agent_payload a = field "id" (str a.id) (
    field "name" (str a.name) (
      field "description" (str a.description) (
        field "prompt" (str a.prompt) (
          field "tools" (tools_value a.tools) (
            field "model" a.model (
              field "created_at" (str a.created_at) (
                field "updated_at" a.updated_at (
                  field "is_shared" a.is_shared
                    (field "share_url" a.share_url (field "share_token" a.share_token end))))))))))

unfoldable pub parse_agent : Runtime → String → Dict → AgentRecord
parse_agent rt agent_id raw = record {
  id = text_field rt "id" agent_id raw;
  name = text_field rt "name" "" raw;
  description = text_field rt "description" "" raw;
  prompt = text_field rt "prompt" "" raw;
  tools = parse_tools (get "tools" raw);
  model = raw_at "model" raw;
  created_at = text_field rt "created_at" "" raw;
  updated_at = raw_at "updated_at" raw;
  is_shared = raw_at "is_shared" raw;
  share_url = raw_at "share_url" raw;
  share_token = raw_at "share_token" raw;
}

-- What a client gives of an agent.
pub record AgentFields : Type 0 where
  pub name : String
  pub description : String
  pub prompt : String
  pub tools : Option (List String)
  pub model : Option String

unfoldable pub new_agent : String → String → AgentFields → AgentRecord
new_agent fresh now f = record {
  id = fresh;
  name = f.name;
  description = f.description;
  prompt = f.prompt;
  tools = f.tools;
  model = opt_str f.model;
  created_at = now;
  updated_at = null;
  is_shared = bool false;
  share_url = null;
  share_token = null;
}

unfoldable pub updated_agent : String → AgentFields → AgentRecord → AgentRecord
updated_agent now f existing = record existing {
  name = f.name;
  description = f.description;
  prompt = f.prompt;
  tools = f.tools;
  model = opt_str f.model;
  updated_at = str now;
}

unfoldable pub shared_agent : String → String → AgentRecord → AgentRecord
shared_agent token share_url existing = record existing {
  is_shared = bool true;
  share_url = str share_url;
  share_token = str token;
}

module _ {W : Type 0} (rt : Runtime) (cache : Cache W) where
  abbrev pub agents : Shelf W AgentRecord
  agents = record {
    cache = cache;
    index_key = "agents:index";
    key = agent_key;
    parse = λ id d. ok (parse_agent rt id d);
  }

  unfoldable pub list_agents : Exec W (List AgentRecord)
  list_agents = list_all agents

  unfoldable pub create_agent : (fresh now : String) (f : AgentFields) → Exec W AgentRecord
  create_agent fresh now f = do
    let a = new_agent fresh now f
    add_record agents fresh (agent_payload a)
    pure a

  unfoldable pub get_agent : String → Exec W (Option AgentRecord)
  get_agent agent_id = get_one agents agent_id

  -- The part that `update_agent` and `share_agent` share.
  unfoldable pub change_agent : String → (AgentRecord → AgentRecord) → Exec W (Option AgentRecord)
  change_agent agent_id change = do
    found ← get_agent agent_id
    elim found [
      | none ↦ pure none
      | some existing ↦ do
        put_record agents agent_id (agent_payload (change existing))
        pure (some (change existing))
    ]

  unfoldable pub update_agent : String → String → AgentFields → Exec W (Option AgentRecord)
  update_agent agent_id now f = change_agent agent_id (updated_agent now f)

  unfoldable pub share_agent : String → String → String → Exec W (Option AgentRecord)
  share_agent agent_id token share_url = change_agent agent_id (shared_agent token share_url)

  unfoldable pub delete_agent : String → Exec W Bool
  delete_agent agent_id = remove_record agents agent_id
