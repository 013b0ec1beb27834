-- ===== src/Resources/Projects.antt =====
-- apps/api/services/projects.py: `ProjectService`.
use Prim.Native.String.{◌++◌}
use mathlib.Core.Option.{get_or}
use claude_agent_api.Common.{
  String, Bool, true, false, ◌||◌, Option, none, some, List, [], ◌∷◌, ◌==◌,
}
use claude_agent_api.Common.Int.{pos}
use claude_agent_api.Exec.{ok, Exec, pure, ◌>>=◌, ◌>>◌}
use claude_agent_api.Json.{Json, Dict, null, int, str, obj, end, field, opt_obj}
use claude_agent_api.Interfaces.{Cache}
use claude_agent_api.Runtime.{Runtime}
use claude_agent_api.Sessions.Model.{truthy}
use claude_agent_api.Resources.Index.{
  Shelf, text_field, raw_at, list_all, get_one, put_record, add_record, remove_record,
}

-- `cast` checks nothing: the last three are kept as they are in the cache.
pub record ProjectRecord : Type 0 where
  pub id : String
  pub name : String
  pub path : String
  pub created_at : String
  pub last_accessed_at : Json
  pub session_count : Json
  pub metadata : Json

abbrev pub project_key : String → String
project_key project_id = "project:" ++ project_id

unfoldable pub project_payload : ProjectRecord → Dict
project_payload p = field "id" (str p.id) (
    field "name" (str p.name) (
      field "path" (str p.path) (
        field "created_at" (str p.created_at) (
          field "last_accessed_at" p.last_accessed_at
            (field "session_count" p.session_count (field "metadata" p.metadata end))))))

unfoldable pub parse_project : Runtime → String → Dict → ProjectRecord
parse_project rt project_id raw = record {
  id = text_field rt "id" project_id raw;
  name = text_field rt "name" "" raw;
  path = text_field rt "path" "" raw;
  created_at = text_field rt "created_at" "" raw;
  last_accessed_at = raw_at "last_accessed_at" raw;
  session_count = raw_at "session_count" raw;
  metadata = raw_at "metadata" raw;
}

-- Some project has the name or the path.
unfoldable pub is_taken : String → String → List ProjectRecord → Bool
is_taken name path [] = false
is_taken name path (p ∷ ps) = p.name == name || p.path == path || is_taken name path ps

unfoldable pub new_project : String → String → String → String → Option Dict → ProjectRecord
new_project fresh now name path metadata = record {
  id = fresh;
  name = name;
  path = path;
  created_at = now;
  last_accessed_at = null;
  session_count = int (pos 0);
  metadata = opt_obj metadata;
}

module _ {W : Type 0} (rt : Runtime) (cache : Cache W) where
  abbrev pub projects : Shelf W ProjectRecord
  projects = record {
    cache = cache;
    index_key = "projects:index";
    key = project_key;
    parse = λ id d. ok (parse_project rt id d);
  }

  unfoldable pub list_projects : Exec W (List ProjectRecord)
  list_projects = list_all projects

  unfoldable pub create_project :
      (fresh now name : String) (path : Option String) (metadata : Option Dict)
      → Exec W (Option ProjectRecord)
  unfolding new_project
  create_project fresh now name path metadata = do
    existing ← list_projects
    let normalized_path = get_or (truthy path) name
    let p = new_project fresh now name normalized_path metadata
    elim (is_taken name normalized_path existing) [
      | true ↦ pure none
      | false ↦ do add_record projects fresh (project_payload p); pure (some p)
    ]

  unfoldable pub get_project : String → Exec W (Option ProjectRecord)
  get_project project_id = get_one projects project_id

  updated_project : ProjectRecord → Option String → Option Dict → ProjectRecord
  updated_project existing name metadata = record existing {
    name = get_or (truthy name) existing.name;
    metadata = elim metadata [ none ↦ existing.metadata | some d ↦ obj d ];
  }

  unfoldable pub update_project :
      (project_id : String) (name : Option String) (metadata : Option Dict)
      → Exec W (Option ProjectRecord)
  unfolding updated_project
  update_project project_id name metadata = do
    found ← get_project project_id
    elim found [
      | none ↦ pure none
      | some existing ↦ do
        let p = updated_project existing name metadata
        put_record projects project_id (project_payload p)
        pure (some p)
    ]

  unfoldable pub delete_project : String → Exec W Bool
  delete_project project_id = remove_record projects project_id
