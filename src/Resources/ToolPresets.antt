-- ===== src/Resources/ToolPresets.antt =====
-- apps/api/services/tool_presets.py: `ToolPresetService`.
use Prim.Native.String.{◌++◌}
use mathlib.Core.Option.{get_or}
use claude_agent_api.Common.{String, Bool, false, Option, none, some, List, map}
use claude_agent_api.Exec.{Outcome, ok, Exec, pure, ◌>>=◌, ◌>>◌, ◌>>=?◌}
use claude_agent_api.Json.{Json, Dict, bool, str, arr, end, field, get, opt_str, items_of}
use claude_agent_api.Payload.{is_truthy, iterate}
use claude_agent_api.Interfaces.{Cache}
use claude_agent_api.Runtime.{Runtime}
use claude_agent_api.Resources.Index.{
  Shelf, text_field, raw_at, list_all, get_one, put_record, add_record, remove_record,
}

-- `cast` checks nothing: the description and the members of the lists are kept as they are.
pub record ToolPreset : Type 0 where
  pub id : String
  pub name : String
  pub description : Json
  pub allowed_tools : List Json
  pub disallowed_tools : List Json
  pub is_system : Bool
  pub created_at : String

abbrev pub preset_key : String → String
preset_key preset_id = "tool_preset:" ++ preset_id

unfoldable pub preset_payload : ToolPreset → Dict
preset_payload p = field "id" (str p.id) (
    field "name" (str p.name) (
      field "description" p.description (
        field "allowed_tools" (arr (items_of p.allowed_tools)) (
          field "disallowed_tools" (arr (items_of p.disallowed_tools))
            (field "is_system" (bool p.is_system) (field "created_at" (str p.created_at) end))))))

-- `list` of something that cannot be iterated raises.
unfoldable pub parse_preset : Runtime → String → Dict → Outcome ToolPreset
parse_preset rt preset_id raw = iterate (get "allowed_tools" raw) >>=? λ allowed_tools.
    iterate (get "disallowed_tools" raw) >>=? λ disallowed_tools. ok (record {
      id = text_field rt "id" preset_id raw;
      name = text_field rt "name" "" raw;
      description = raw_at "description" raw;
      allowed_tools = allowed_tools;
      disallowed_tools = disallowed_tools;
      is_system = is_truthy (get_or (get "is_system" raw) (bool false));
      created_at = text_field rt "created_at" "" raw;
    })

-- What a client gives of a preset.
pub record PresetFields : Type 0 where
  pub name : String
  pub description : Option String
  pub allowed_tools : List String
  pub disallowed_tools : List String

unfoldable pub new_preset : String → String → Bool → PresetFields → ToolPreset
new_preset fresh now is_system f = record {
  id = fresh;
  name = f.name;
  description = opt_str f.description;
  allowed_tools = map str f.allowed_tools;
  disallowed_tools = map str f.disallowed_tools;
  is_system = is_system;
  created_at = now;
}

unfoldable pub updated_preset : PresetFields → ToolPreset → ToolPreset
updated_preset f existing = record existing {
  name = f.name;
  description = opt_str f.description;
  allowed_tools = map str f.allowed_tools;
  disallowed_tools = map str f.disallowed_tools;
}

module _ {W : Type 0} (rt : Runtime) (cache : Cache W) where
  abbrev pub presets : Shelf W ToolPreset
  presets = record {
    cache = cache;
    index_key = "tool_presets:index";
    key = preset_key;
    parse = parse_preset rt;
  }

  unfoldable pub create_preset :
      (fresh now : String) (is_system : Bool) (f : PresetFields) → Exec W ToolPreset
  create_preset fresh now is_system f = do
    let p = new_preset fresh now is_system f
    add_record presets fresh (preset_payload p)
    pure p

  unfoldable pub list_presets : Exec W (List ToolPreset)
  list_presets = list_all presets

  unfoldable pub get_preset : String → Exec W (Option ToolPreset)
  get_preset preset_id = get_one presets preset_id

  unfoldable pub update_preset : String → PresetFields → Exec W (Option ToolPreset)
  update_preset preset_id f = do
    found ← get_preset preset_id
    elim found [
      | none ↦ pure none
      | some existing ↦ do
        let p = updated_preset f existing
        put_record presets preset_id (preset_payload p)
        pure (some p)
    ]

  unfoldable pub delete_preset : String → Exec W Bool
  delete_preset preset_id = remove_record presets preset_id
