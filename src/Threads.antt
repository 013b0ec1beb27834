-- ===== src/Threads.antt =====
-- apps/api/services/assistants/thread_service.py. Logging is left out. The id that
-- `generate_thread_id` draws, the id that `uuid4` draws for the session and the time are arguments.
pub mod Properties
use Prim.Native.String.{◌++◌}
use mathlib.Core.Option.{get_or}
use claude_agent_api.Common.{ℕ, ◌/◌, String, Bool, true, false, Option, none, some, List, [], ◌∷◌}
use claude_agent_api.Common.Int.{ℤ, pos}
use claude_agent_api.Exec.{Outcome, ok, Exec, pure, lift, ◌>>=◌, ◌>>◌, ◌>>=?◌}
use claude_agent_api.Interfaces.{Cache}
use claude_agent_api.Json.{Dict, int, str, obj, end, field, get, of_strings, opt_str}
use claude_agent_api.Payload.{required_str, int_or_zero, truthy_str, str_entries}
use claude_agent_api.Runtime.{Runtime}
use claude_agent_api.Sessions.Model.{truthy}
use claude_agent_api.Sessions.CacheManager.{none_on_bad_data}
use claude_agent_api.Sessions.Service.{SessionService, create_session}
use claude_agent_api.Sessions.Changes.{delete_session}

pub record Thread : Type 0 where
  pub id : String
  pub created_at : ℤ
  pub metadata : List (String × String)
  pub session_id : Option String

pub record ThreadService (W : Type 0) : Type 0 where
  pub session_service : Option (SessionService W)
  pub cache : Option (Cache W)
  pub ttl : ℕ

abbrev pub cache_key : String → String
cache_key thread_id = "thread:" ++ thread_id

-- The payload that `_cache_thread` writes.
unfoldable pub thread_payload : Thread → Dict
thread_payload t = field "id" (str t.id) (
    field "created_at" (int t.created_at) (
      field "metadata" (obj (of_strings t.metadata))
        (field "session_id" (opt_str t.session_id) end)))

-- The body of the `try` block of `_parse_cached_thread`.
parse_payload : Runtime → Dict → Outcome Thread
unfolding get
parse_payload rt d = required_str rt (get "id" d) >>=? λ id.
    int_or_zero rt (get "created_at" d) >>=? λ created_at. ok (record {
      id = id;
      created_at = created_at;
      metadata = str_entries (get "metadata" d);
      session_id = truthy_str rt (get "session_id" d);
    })

unfoldable pub parse_cached_thread : Runtime → Dict → Outcome (Option Thread)
unfolding parse_payload none_on_bad_data
parse_cached_thread rt d = none_on_bad_data (parse_payload rt d)

module _ {W : Type 0} (rt : Runtime) (svc : ThreadService W) where
  unfoldable pub cache_thread : Thread → Exec W (Unit {0})
  cache_thread t = elim svc.cache [
    | none ↦ pure tt
    | some c ↦ do _ ← c.set_json (cache_key t.id) (thread_payload t) (some svc.ttl); pure tt
  ]

  -- The session behind a new thread; `fresh` and `now` are drawn by `create_session`.
  unfoldable pub session_for : String → ℕ → Option String → Exec W (Option String)
  session_for fresh now owner_api_key = elim svc.session_service [
    | none ↦ pure none
    | some sessions ↦ do
      s ← create_session rt sessions fresh now "gpt-4" none none owner_api_key
      pure (some s.id)
  ]

  -- `now` is in microseconds, and the thread's time in whole seconds
  unfoldable pub create_thread :
      (thread_id fresh : String) (now : ℕ) (metadata : Option (List (String × String)))
      (owner_api_key : Option String)
      → Exec W Thread
  create_thread thread_id fresh now metadata owner_api_key = do
    session_id ← session_for fresh now owner_api_key
    let t : Thread = record {
      id = thread_id;
      created_at = pos (now / 1000000);
      metadata = get_or metadata [];
      session_id = session_id;
    }
    cache_thread t
    pure t

  unfoldable pub read_thread : Option Dict → Exec W (Option Thread)
  read_thread none = pure none
  read_thread (some end) = pure none
  read_thread (some (field k v d)) = lift (parse_cached_thread rt (field k v d))

  -- The API key of the request is not used: threads live in the cache alone.
  unfoldable pub get_thread : String → Option String → Exec W (Option Thread)
  get_thread thread_id _current_api_key = elim svc.cache [
    | none ↦ pure none
    | some c ↦ do parsed ← c.get_json (cache_key thread_id); read_thread parsed
  ]

  modify_found : Option (List (String × String)) → Option Thread → Exec W (Option Thread)
  modify_found metadata none = pure none
  modify_found metadata (some t) = do
    let modified = record t { metadata = get_or metadata t.metadata }
    cache_thread modified
    pure (some modified)

  unfoldable pub modify_thread :
      String → Option (List (String × String)) → Option String → Exec W (Option Thread)
  unfolding modify_found
  modify_thread thread_id metadata current_api_key = do
    found ← get_thread thread_id current_api_key
    modify_found metadata found

  -- if self._session_service and thread.session_id
  drop_session : Option (SessionService W) → Option String → Exec W (Unit {0})
  drop_session none session_id = pure tt
  drop_session (some sessions) none = pure tt
  drop_session (some sessions) (some session_id) = do
    _ ← delete_session rt sessions session_id
    pure tt

  drop_cached : String → Exec W (Unit {0})
  drop_cached thread_id = elim svc.cache [
    | none ↦ pure tt
    | some c ↦ do _ ← c.delete (cache_key thread_id); pure tt
  ]

  delete_found : String → Option Thread → Exec W Bool
  unfolding drop_session drop_cached
  delete_found thread_id none = pure false
  delete_found thread_id (some t) = do
    drop_session svc.session_service (truthy t.session_id)
    drop_cached thread_id
    pure true

  unfoldable pub delete_thread : String → Option String → Exec W Bool
  unfolding delete_found
  delete_thread thread_id current_api_key = do
    found ← get_thread thread_id current_api_key
    delete_found thread_id found
