-- ===== src/Sessions/Changes.antt =====
-- apps/api/services/session.py (`delete_session`, `promote_session`, `update_tags`) and
-- apps/api/services/session_metadata_manager.py. Logging is left out.
pub mod Deletion
pub mod Metadata
use mathlib.Core.Option.{get_or}
use claude_agent_api.Common.{String, Bool, true, false, Option, none, some, List, map}
use claude_agent_api.Json.{Dict, str, arr, end, put, items_of}
use claude_agent_api.Exec.{
  Exn, value_error, type_error, Exec, pure, throw, lift, catch, ◌>>=◌, ◌>>◌,
}
use claude_agent_api.Runtime.{Runtime}
use claude_agent_api.Interfaces.{SessionRow, SessionRepository}
use claude_agent_api.Sessions.Model.{Session}
use claude_agent_api.Sessions.CacheManager.{cache_session, get_cached_session, delete_cached}
use claude_agent_api.Sessions.Service.{
  SessionService, cache_manager, map_db_to_service, get_session,
}

-- metadata.update({"mode": "code", "project_id": project_id})
unfoldable pub promoted : String → Dict → Dict
promoted project_id metadata = put "project_id" (str project_id) (put "mode" (str "code") metadata)

-- metadata["tags"] = tags
unfoldable pub tagged : List String → Dict → Dict
tagged tags metadata = put "tags" (arr (items_of (map str tags))) metadata

module _ {W : Type 0} (rt : Runtime) (svc : SessionService W) where
  -- except ValueError: nothing is found; every other exception goes on
  none_on_value_error : Exn → Exec W (Option SessionRow)
  none_on_value_error value_error = pure none
  none_on_value_error e = throw e

  -- repo.get(UUID(session_id)), with a malformed id as a miss
  row_of : SessionRepository W → String → Exec W (Option SessionRow)
  unfolding none_on_value_error
  row_of repo session_id =
      catch (do u ← lift (rt.uuid session_id); repo.get_row u) none_on_value_error

  owner_hash_in_db : String → Exec W (Option String)
  unfolding row_of
  owner_hash_in_db session_id = elim svc.db_repo [
    | none ↦ pure none
    | some repo ↦ do
      row ← row_of repo session_id
      elim row [ none ↦ pure none | some r ↦ pure r.owner_api_key_hash ]
  ]

  -- The hash of the owner's key, from the cached session or else from the database.
  owner_hash : String → Exec W (Option String)
  unfolding owner_hash_in_db
  owner_hash session_id = do
    cached ← get_cached_session rt (cache_manager svc) session_id
    elim cached [ some s ↦ pure s.owner_api_key_hash | none ↦ owner_hash_in_db session_id ]

  -- except (ValueError, TypeError): pass
  ignore_bad_id : Exn → Exec W Bool
  ignore_bad_id value_error = pure false
  ignore_bad_id type_error = pure false
  ignore_bad_id e = throw e

  delete_from_db : String → Exec W Bool
  unfolding ignore_bad_id
  delete_from_db session_id = elim svc.db_repo [
    | none ↦ pure false
    | some repo ↦ catch (do u ← lift (rt.uuid session_id); repo.delete_row u) ignore_bad_id
  ]

  unfoldable pub delete_session : String → Exec W Bool
  unfolding owner_hash delete_from_db
  delete_session session_id = elim svc.cache [
    | none ↦ pure false
    | some _ ↦ do
      owner_api_key_hash ← owner_hash session_id
      result ← delete_cached (cache_manager svc) session_id owner_api_key_hash
      elim result [ true ↦ do _ ← delete_from_db session_id; pure true | false ↦ pure false ]
  ]

  -- `get_session_metadata_for_update`
  unfoldable pub metadata_for_update : String → Exec W Dict
  unfolding row_of
  metadata_for_update session_id = elim svc.db_repo [
    | none ↦ pure end
    | some repo ↦ do
      row ← row_of repo session_id
      elim row [ none ↦ pure end | some r ↦ pure (get_or r.session_metadata end) ]
  ]

  -- What `promote_session` and `update_tags` share: write the new metadata, and cache the row
  -- that the database returns.
  write_metadata : String → Dict → Exec W (Option Session)
  write_metadata session_id metadata = elim svc.db_repo [
    | none ↦ pure none
    | some repo ↦ do
      u ← lift (rt.uuid session_id)
      updated ← repo.update_metadata u metadata
      elim updated [
        | none ↦ pure none
        | some row ↦ do
          cache_session rt (cache_manager svc) (map_db_to_service rt row)
          pure (some (map_db_to_service rt row))
      ]
  ]

  change_metadata : String → String → (Dict → Dict) → Exec W (Option Session)
  unfolding write_metadata
  change_metadata session_id current_api_key change = do
    session ← get_session rt svc session_id (some current_api_key)
    elim session [
      | none ↦ pure none
      | some _ ↦ do
        metadata ← metadata_for_update session_id
        write_metadata session_id (change metadata)
    ]

  unfoldable pub promote_session : String → String → String → Exec W (Option Session)
  unfolding change_metadata
  promote_session session_id project_id current_api_key =
      change_metadata session_id current_api_key (promoted project_id)

  unfoldable pub update_tags : String → List String → String → Exec W (Option Session)
  unfolding change_metadata
  update_tags session_id tags current_api_key =
      change_metadata session_id current_api_key (tagged tags)
