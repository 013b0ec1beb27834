-- ===== src/Sessions/Changes/Metadata.antt =====
-- What the two changes of a session's metadata write, and when they write.
use claude_agent_api.Common.{String, ◌≡◌, refl, some, List, map, ◌==◌, if◌then◌else◌}
use claude_agent_api.Json.{Dict, str, arr, get, get-put, items_of}
use claude_agent_api.Sessions.Changes.{promoted, tagged}

-- Promotion sets the mode and the project, and keeps every other field of the metadata.
pub get-promoted :
    (project_id k : String) (metadata : Dict)
    → get k (promoted project_id metadata) ≡ (
        if "project_id" == k
        then some (str project_id)
        else if "mode" == k
        then some (str "code")
        else get k metadata)
unfolding promoted
get-promoted project_id k metadata = rw (get-put, get-put) refl

-- Tagging replaces the tags, and keeps every other field of the metadata.
pub get-tagged :
    (tags : List String) (k : String) (metadata : Dict)
    → get k (tagged tags metadata)
      ≡ (if "tags" == k then some (arr (items_of (map str tags))) else get k metadata)
unfolding tagged
get-tagged tags k metadata = get-put _ _ _ _
