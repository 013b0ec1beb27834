-- ===== src/Sessions/Service.antt =====
-- apps/api/services/session.py: `SessionService`, but for the listing (Sessions/Listing). Logging
-- is left out. The id that `uuid4` draws and the time are arguments.
use mathlib.Core.Option.{get_or}
use mathlib.Core.Option
use claude_agent_api.Common.{ℕ, String, Bool, Option, none, some, ◌==◌, if◌then◌else◌}
use claude_agent_api.Common.Int.{ℤ, pos, ◌+ℤ◌}
use claude_agent_api.Exec.{
  Exn, Outcome, ok, raise, api_error, session_not_found, integrity_error, operational_error,
  connection_error, timeout_error, Exec, pure, throw, lift, catch, ◌>>=◌, ◌>>◌,
}
use claude_agent_api.Runtime.{Runtime}
use claude_agent_api.Interfaces.{Cache, SessionRow, SessionRepository}
use claude_agent_api.Sessions.Model.{
  Session, SessionStatus, active, status_text, parse_session_status, truthy, hash_api_key,
}
use claude_agent_api.Sessions.CacheManager.{SessionCacheManager, cache_session, get_cached_session}
use claude_agent_api.Sessions.Locks.{Timing, with_session_lock}

pub record SessionService (W : Type 0) : Type 0 where
  pub cache : Option (Cache W)
  pub db_repo : Option (SessionRepository W)
  pub ttl : ℕ
  pub timing : Timing W
  -- the bound on the rounds of the lock's loop
  pub rounds : ℕ

abbrev pub cache_manager : {W : Type 0} → SessionService W → SessionCacheManager W
cache_manager svc = record { cache = svc.cache; ttl = svc.ttl }

-- The request's key, and the hash that the session keeps, where they are not empty.
-- `compare_digest` is equality here: the hashes are hexadecimal text.
unfoldable pub check_owner : Runtime → Session → Option String → Option String → Outcome Session
check_owner rt s none owner_api_key_hash = ok s
check_owner rt s (some key) none = raise (session_not_found s.id)
check_owner rt s (some key) (some stored) =
    if stored == hash_api_key rt key then ok s else raise (session_not_found s.id)

-- `_enforce_owner`
unfoldable pub enforce_owner : Runtime → Session → Option String → Outcome Session
enforce_owner rt s current_api_key =
    check_owner rt s (truthy current_api_key) (truthy s.owner_api_key_hash)

-- `_map_db_to_service`
unfoldable pub map_db_to_service : Runtime → SessionRow → Session
map_db_to_service rt r = record {
  id = r.id;
  model = r.model;
  status = parse_session_status rt r.status;
  created_at = r.created_at;
  updated_at = r.updated_at;
  total_turns = r.total_turns;
  total_cost_usd = Option.map rt.float_of_decimal r.total_cost_usd;
  parent_session_id = r.parent_session_id;
  owner_api_key_hash = r.owner_api_key_hash;
  session_metadata = r.session_metadata;
}

-- The `except` clauses round the database write of `create_session`.
unfoldable pub create_error : Exn → Exn
create_error integrity_error = api_error "Session already exists" "ALREADY_EXISTS" 409
create_error operational_error =
    api_error "Database temporarily unavailable" "DATABASE_UNAVAILABLE" 503
create_error e = api_error "Failed to create session" "INTERNAL_ERROR" 500

-- The `except` clauses of `get_session`.
unfoldable pub get_error : Exn → Exn
get_error operational_error =
    api_error "Database temporarily unavailable" "DATABASE_UNAVAILABLE" 503
get_error (session_not_found id) = session_not_found id
get_error e = api_error "Failed to retrieve session" "INTERNAL_ERROR" 500

-- The session that `create_session` makes.
unfoldable pub new_session : Runtime → String → ℕ → String → Option String → Option String → Session
new_session rt id now model parent_session_id owner_api_key = record {
  id = id;
  model = model;
  status = active;
  created_at = now;
  updated_at = now;
  total_turns = pos 0;
  total_cost_usd = none;
  parent_session_id = parent_session_id;
  owner_api_key_hash = Option.map (hash_api_key rt) (truthy owner_api_key);
  session_metadata = none;
}

-- `UUID(x) if x else None`
unfoldable pub uuid_if_given : Runtime → Option String → Outcome (Option String)
uuid_if_given rt x = elim (truthy x) [
  | none ↦ ok none
  | some text ↦ elim (rt.uuid text) [ ok u ↦ ok (some u) | raise e ↦ raise e ]
]

-- The fields that `update_session` sets.
unfoldable pub apply_updates :
    ℕ → Option SessionStatus → Option ℤ → Option ℕ → Bool → Session → Session
apply_updates now status total_turns total_cost_usd increment_turns s =
    let turns = get_or total_turns s.total_turns in
    record s {
      status = get_or status s.status;
      total_turns = if increment_turns then turns +ℤ pos 1 else turns;
      total_cost_usd = elim total_cost_usd [ none ↦ s.total_cost_usd | some x ↦ some x ];
      updated_at = now;
    }

module _ {W : Type 0} (rt : Runtime) (svc : SessionService W) where
  unfoldable pub write_to_db : String → String → Option String → Option String → Exec W (Unit {0})
  unfolding uuid_if_given
  write_to_db id model parent_session_id owner_api_key = elim svc.db_repo [
    | none ↦ pure tt
    | some repo ↦
        catch
          (do
            u ← lift (rt.uuid id)
            parent ← lift (uuid_if_given rt parent_session_id)
            _ ← repo.create u model parent owner_api_key
            pure tt)
          (λ e. throw (create_error e))
  ]

  unfoldable pub cache_unavailable : Exec W (Unit {0})
  cache_unavailable = elim svc.cache [
    | some _ ↦ throw (
        api_error "Session caching failed. Distributed sessions require Redis." "CACHE_UNAVAILABLE"
          503)
    | none ↦ pure tt
  ]

  -- The `except` clauses round the cache write of `create_session`.
  unfoldable pub create_cache_error : Exn → Exec W (Unit {0})
  unfolding cache_unavailable
  create_cache_error connection_error = cache_unavailable
  create_cache_error timeout_error = cache_unavailable
  create_cache_error e = pure tt

  unfoldable pub create_session :
      (fresh : String) (now : ℕ) (model : String)
      → (session_id parent_session_id owner_api_key : Option String) → Exec W Session
  create_session fresh now model session_id parent_session_id owner_api_key = do
    let id = get_or session_id fresh
    let session = new_session rt id now model parent_session_id owner_api_key
    write_to_db id model parent_session_id owner_api_key
    catch (cache_session rt (cache_manager svc) session) create_cache_error
    pure session

  -- The row of the database, enforced and cached again.
  unfoldable pub found_in_db : Option String → Option SessionRow → Exec W (Option Session)
  found_in_db current_api_key none = pure none
  found_in_db current_api_key (some row) = do
    session ← lift (enforce_owner rt (map_db_to_service rt row) current_api_key)
    cache_session rt (cache_manager svc) session
    pure (some session)

  unfoldable pub get_from_db : String → Option String → Exec W (Option Session)
  get_from_db session_id current_api_key = elim svc.db_repo [
    | none ↦ pure none
    | some repo ↦
        catch
          (do u ← lift (rt.uuid session_id); row ← repo.get_row u; found_in_db current_api_key row)
          (λ e. throw (get_error e))
  ]

  -- A session of the cache is enforced; without one the database is asked.
  unfoldable pub check_cached : String → Option String → Option Session → Exec W (Option Session)
  check_cached session_id current_api_key none = get_from_db session_id current_api_key
  check_cached session_id current_api_key (some cached) = do
    session ← lift (enforce_owner rt cached current_api_key)
    pure (some session)

  unfoldable pub get_session : String → Option String → Exec W (Option Session)
  unfolding check_cached
  get_session session_id current_api_key = do
    cached ← get_cached_session rt (cache_manager svc) session_id
    check_cached session_id current_api_key cached

  unfoldable pub update_db : String → Session → Exec W (Unit {0})
  update_db session_id s = elim svc.db_repo [
    | none ↦ pure tt
    | some repo ↦ do
      u ← lift (rt.uuid session_id)
      _ ← repo.update u (some (status_text s.status)) (some s.total_turns) s.total_cost_usd
      pure tt
  ]

  -- Write the changed session to the database, and only then to the cache.
  unfoldable pub update_found :
      String → (Session → Session) → Option Session → Exec W (Option Session)
  unfolding update_db
  update_found session_id change none = pure none
  update_found session_id change (some s) = do
    update_db session_id (change s)
    cache_session rt (cache_manager svc) (change s)
    pure (some (change s))

  -- `_do_update`, which runs under the lock
  unfoldable pub do_update :
      String
      → ℕ
      → Option SessionStatus
      → Option ℤ
      → Option ℕ
      → Bool
      → Option String
      → Exec W (Option Session)
  unfolding update_found
  do_update session_id now status total_turns total_cost_usd increment_turns current_api_key = do
    found ← get_session session_id current_api_key
    update_found session_id (apply_updates now status total_turns total_cost_usd increment_turns)
        found

  unfoldable pub update_session :
      String
      → ℕ
      → Option SessionStatus
      → Option ℤ
      → Option ℕ
      → Bool
      → Option String
      → Exec W (Option Session)
  update_session session_id now status total_turns total_cost_usd increment_turns current_api_key =
      with_session_lock svc.timing svc.rounds svc.cache session_id 5000000 30
        (do_update session_id now status total_turns total_cost_usd increment_turns current_api_key)
