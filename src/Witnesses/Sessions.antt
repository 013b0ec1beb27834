-- ===== src/Witnesses/Sessions.antt =====
-- Runs of apps/api/services/session.py in the in-memory world.
use claude_agent_api.Common.{arith, ◌≡◌, refl, true, false, none, some, [], ◌∷◌}
use claude_agent_api.Common.Int.{pos}
use claude_agent_api.Common.Sorting.{sort, IsOrdered}
use mathlib.Core.List.{Perm}
use claude_agent_api.Exec.{◌>>=◌, ok, integrity_error, redis_error, throw, ◌>>=?◌}
use claude_agent_api.Interfaces.{SessionRepository, Cache, Filters}
use claude_agent_api.Sessions.Model.{
  status_text, truthy, hash_api_key, parse_session_status, Session, active, completed,
}
use claude_agent_api.Sessions.CacheManager.{
  cache_key, session_payload, parse_cached_session, cache_session, get_cached_session,
}
use claude_agent_api.Sessions.Locks.{with_session_lock, acquire}
use claude_agent_api.Sessions.Service.{
  write_to_db, do_update, update_found, apply_updates, update_db, write_to_db, check_owner,
  SessionService, create_session, get_session, enforce_owner, new_session, update_session,
}
use claude_agent_api.Sessions.Changes.{delete_session}
use claude_agent_api.Sessions.Changes.Deletion.{
  both, delete_session-cached, delete_session-uncached,
}
use claude_agent_api.Sessions.Creation.{created, with_cache, get_session-create_session}
use claude_agent_api.Sessions.Ownership.{IsVisible, get_session-IsVisible, update_session-IsVisible}
use claude_agent_api.Sessions.Listing.{newest_first, list_cached, matches_metadata_filters}
use claude_agent_api.Sessions.Listing.Paging.{listed, list_pages, list_pages_complete}
use claude_agent_api.Witnesses.World.{
  write_row, fresh_row, World, memory, table, python, python-laws, service, empty, json_at, row_at,
  write_doc,
}
use claude_agent_api.Witnesses.Laws.{
  memory-JsonLaws, memory-HasLaws, memory-IndexLaws, table-RowLaws, owner_index_key-apart,
}

abbrev session_1 : Session
session_1 = record {
  id = "s1";
  model = "sonnet";
  status = active;
  created_at = 1;
  updated_at = 2;
  total_turns = pos 0;
  total_cost_usd = none;
  parent_session_id = none;
  owner_api_key_hash = some "key";
  session_metadata = none;
}

abbrev cached_world : World
cached_world = write_doc (cache_key "s1") (some (session_payload python session_1)) empty

-- the session after an update of its status and its turns
abbrev session_2 : Session
session_2 = record session_1 { status = completed; updated_at = 9; total_turns = pos 4 }

abbrev row_world : World
row_world = write_row "s1" (some (fresh_row "s1" "sonnet" none (some "key"))) empty

abbrev refusing : SessionRepository World
refusing = record table { create = λ id model parent owner. throw integrity_error }

abbrev refusing_service : SessionService World
refusing_service = record service { db_repo = some refusing }

abbrev failing : Cache World
failing = record memory { set_json = λ k d t. throw redis_error }

abbrev failing_service : SessionService World
failing_service = record service { cache = some failing }

abbrev any_session : Filters
any_session = record { mode = none; project_id = none; tags = none; search = none }

get_session-IsVisible_example : IsVisible python session_1 (some "key")
unfolding get_session enforce_owner get_cached_session parse_cached_session session_payload
    check_owner truthy hash_api_key parse_session_status ◌>>=◌
get_session-IsVisible_example =
    get_session-IsVisible python service "s1" (some "key") cached_world cached_world session_1 refl

delete_session-uncached_example :
    let (r, w') =
      delete_session python
        (both python service memory table memory-JsonLaws memory-HasLaws memory-IndexLaws
          table-RowLaws)
        "s1"
        empty in
    (r ≡ ok false) × (row_at w' "s1" ≡ row_at empty "s1")
delete_session-uncached_example =
    delete_session-uncached python service memory table memory-JsonLaws memory-HasLaws
      memory-IndexLaws table-RowLaws "s1" "s1" "s1" empty owner_index_key-apart refl refl

delete_session-cached_example :
    let (r, w') =
      delete_session python
        (both python service memory table memory-JsonLaws memory-HasLaws memory-IndexLaws
          table-RowLaws)
        "s1"
        cached_world in
    (r ≡ ok true) × (json_at w' (cache_key "s1") ≡ none) × (row_at w' "s1" ≡ none)
delete_session-cached_example =
    delete_session-cached python service memory table memory-JsonLaws memory-HasLaws
      memory-IndexLaws table-RowLaws python-laws session_1 "s1" cached_world owner_index_key-apart
      refl refl

update_session-IsVisible_example : IsVisible python session_2 (some "key")
unfolding update_session do_update update_found apply_updates update_db cache_session status_text
    with_session_lock acquire get_session enforce_owner get_cached_session parse_cached_session
    session_payload check_owner truthy hash_api_key parse_session_status ◌>>=◌
update_session-IsVisible_example =
    update_session-IsVisible python service "s1" 9 (some completed) (some (pos 4)) none false
      (some "key") cached_world
      (update_session python service "s1" 9 (some completed) (some (pos 4)) none false (some "key")
        cached_world).1
      session_2 refl

get_session-create_session_example :
    let svc = with_cache python service memory memory-JsonLaws memory-IndexLaws in
    let s = created python svc "s1" 5 "sonnet" none none (some "key") in
    let (r, w2) = create_session python svc "s1" 5 "sonnet" none none (some "key") empty in
    (r ≡ ok s)
    × (get_session python svc "s1" (some "key") w2
        ≡ ((enforce_owner python s (some "key") >>=? λ t. ok (some t)), w2))
unfolding write_to_db new_session ◌>>=◌ truthy
get_session-create_session_example =
    get_session-create_session python service memory memory-JsonLaws memory-IndexLaws python-laws
      "s1" 5 "sonnet" none none (some "key") (some "key") empty row_world refl

list_pages_complete_example :
    let ss = session_1 ∷ session_2 ∷ [] in
    (list_pages python 2 1 any_session ss ≡ listed python any_session ss)
    × IsOrdered newest_first (sort newest_first ss)
    × Perm (sort newest_first ss) ss
unfolding list_cached sort matches_metadata_filters
list_pages_complete_example =
    list_pages_complete python 2 1 any_session (session_1 ∷ session_2 ∷ []) (omega arith)
