-- ===== src/Sessions/Ownership.antt =====
-- Who may see a session: `_enforce_owner`, and what `get_session` and `update_session` return.
use claude_agent_api.Common.{
  ℕ, String, Bool, ◌≡◌, ◌⊎◌, refl, ap, inl, inr, Option, none, some, arith, ◌==◌, eq_iff,
  Bool-cases,
}
use claude_agent_api.Common.Int.{ℤ}
use claude_agent_api.Exec.{Outcome, ok, raise, session_not_found, lift}
use claude_agent_api.Exec.Ensures.{
  Ensures, OkIs, Ensures-pure, Ensures-throw, Ensures-lift, Ensures-catch, Ensures-bind,
  Ensures-bind_of, Ensures-value,
}
use claude_agent_api.Runtime.{Runtime}
use claude_agent_api.Interfaces.{SessionRow, SessionRepository}
use claude_agent_api.Sessions.Model.{Session, SessionStatus, truthy, hash_api_key}
use claude_agent_api.Sessions.Locks.Properties.{Ensures-with_session_lock}
use claude_agent_api.Sessions.Service.{
  update_found, check_cached, SessionService, enforce_owner, check_owner, get_session, get_from_db,
  found_in_db, apply_updates, do_update, update_session, get_error, map_db_to_service,
}

abbrev pub Matches : Runtime → Option String → Option String → Type 0
Matches rt none stored = Unit
Matches rt (some key) stored = stored ≡ some (hash_api_key rt key)

-- The request has no key, or the session has a hash and it is the hash of the key.
abbrev pub IsVisible : Runtime → Session → Option String → Type 0
IsVisible rt s current_api_key = Matches rt (truthy current_api_key) (truthy s.owner_api_key_hash)

check_owner_lem :
    (rt : Runtime) (s : Session) (current stored : Option String)
    → ((check_owner rt s current stored ≡ ok s) × Matches rt current stored)
      ⊎ ((check_owner rt s current stored ≡ raise (session_not_found s.id))
          × ¬ Matches rt current stored)
unfolding check_owner
check_owner_lem rt s none stored = inl (refl, tt)
check_owner_lem rt s (some key) none = inr (refl, λ h. cc)
check_owner_lem rt s (some key) (some stored) = elim (Bool-cases (stored == hash_api_key rt key)) [
  | inl same ↦ rw same (inl (refl, ap some ((eq_iff _ _).0 same)))
  | inr other ↦ rw other (inr (refl, λ h. ground (arith, eq_iff stored (hash_api_key rt key))))
]

-- The check passes exactly if the session is visible to the request, and else raises
-- `SessionNotFoundError` with the session's id.
pub enforce_owner_lem :
    (rt : Runtime) (s : Session) (current_api_key : Option String)
    → ((enforce_owner rt s current_api_key ≡ ok s) × IsVisible rt s current_api_key)
      ⊎ ((enforce_owner rt s current_api_key ≡ raise (session_not_found s.id))
          × ¬ IsVisible rt s current_api_key)
unfolding enforce_owner
enforce_owner_lem rt s current_api_key =
    check_owner_lem rt s (truthy current_api_key) (truthy s.owner_api_key_hash)

enforce_owner-IsVisible :
    (rt : Runtime) (s t : Session) (current_api_key : Option String)
    → enforce_owner rt s current_api_key ≡ ok t
    → IsVisible rt t current_api_key
enforce_owner-IsVisible rt s t current_api_key h = elim (enforce_owner_lem rt s current_api_key) [
  | inl (passed, visible) ↦ let e : s ≡ t = cc in rw (← e) visible
  | inr (refused, hidden) ↦ cc
]

abbrev SomeVisible : Runtime → Option String → Option Session → Type 0
SomeVisible rt k none = Unit
SomeVisible rt k (some s) = IsVisible rt s k

enforce_owner-Ensures :
    {W : Type 0} (rt : Runtime) (s : Session) (k : Option String)
    → Ensures {W = W} (λ t. IsVisible rt t k) (lift (enforce_owner rt s k))
enforce_owner-Ensures rt s k =
    Ensures-lift (enforce_owner rt s k) (check (enforce_owner rt s k) refl)
  where
    check : (r : Outcome Session) → enforce_owner rt s k ≡ r → OkIs (λ t. IsVisible rt t k) r
    check (ok t) e = enforce_owner-IsVisible rt s t k e
    check (raise e) _ = tt

module _ {W : Type 0} (rt : Runtime) where
  found_in_db-Ensures :
      (svc : SessionService W) (k : Option String) (row : Option SessionRow)
      → Ensures (SomeVisible rt k) (found_in_db rt svc k row)
  unfolding found_in_db
  found_in_db-Ensures svc k none = Ensures-pure none tt
  found_in_db-Ensures svc k (some row) =
      Ensures-bind_of _ _ (enforce_owner-Ensures rt (map_db_to_service rt row) k)
        (λ s h. Ensures-bind _ _ (λ _. Ensures-pure (some s) h))

  get_from_db-Ensures :
      (svc : SessionService W) (id : String) (k : Option String)
      → Ensures (SomeVisible rt k) (get_from_db rt svc id k)
  unfolding get_from_db
  get_from_db-Ensures svc id k = go svc.db_repo
    where
      go :
          (r : Option (SessionRepository W))
          → Ensures (SomeVisible rt k) (get_from_db rt (record svc { db_repo = r }) id k)
      go none = Ensures-pure none tt
      go (some repo) =
          Ensures-catch _ _
            (Ensures-bind _ _
              (λ u. Ensures-bind _ _ (found_in_db-Ensures (record svc { db_repo = some repo }) k)))
            (λ e. Ensures-throw (get_error e))

  check_cached-Ensures :
      (svc : SessionService W) (id : String) (k : Option String) (cached : Option Session)
      → Ensures (SomeVisible rt k) (check_cached rt svc id k cached)
  unfolding check_cached
  check_cached-Ensures svc id k none = get_from_db-Ensures svc id k
  check_cached-Ensures svc id k (some s) =
      Ensures-bind_of _ _ (enforce_owner-Ensures rt s k) (λ t h. Ensures-pure (some t) h)

  get_session-Ensures :
      (svc : SessionService W) (id : String) (k : Option String)
      → Ensures (SomeVisible rt k) (get_session rt svc id k)
  unfolding get_session
  get_session-Ensures svc id k = Ensures-bind _ _ (check_cached-Ensures svc id k)

  -- Whatever the cache and the database hold, and whatever they do, a session that `get_session`
  -- returns is visible to the request.
  pub get_session-IsVisible :
      (svc : SessionService W) (id : String) (k : Option String) (w w' : W) (s : Session)
      → get_session rt svc id k w ≡ (ok (some s), w')
      → IsVisible rt s k
  get_session-IsVisible svc id k w w' s h = Ensures-value (get_session-Ensures svc id k) h

  update_found-Ensures :
      (svc : SessionService W) (id : String) (change : Session → Session) (k : Option String)
      (found : Option Session)
      → ((s : Session) → IsVisible rt s k → IsVisible rt (change s) k)
      → SomeVisible rt k found
      → Ensures (SomeVisible rt k) (update_found rt svc id change found)
  unfolding update_found
  update_found-Ensures svc id change k none keeps h = Ensures-pure none tt
  update_found-Ensures svc id change k (some s) keeps h =
      Ensures-bind _ _ (λ _. Ensures-bind _ _ (λ _. Ensures-pure (some (change s)) (keeps s h)))

  do_update-Ensures :
      (svc : SessionService W) (id : String) (now : ℕ) (status : Option SessionStatus)
      (turns : Option ℤ) (cost : Option ℕ) (more : Bool) (k : Option String)
      → Ensures (SomeVisible rt k) (do_update rt svc id now status turns cost more k)
  unfolding do_update
  do_update-Ensures svc id now status turns cost more k =
      Ensures-bind_of _ _ (get_session-Ensures svc id k) (λ found h.
        update_found-Ensures svc id (apply_updates now status turns cost more) k found
          (λ s v. unfold apply_updates in v) h)

  -- A session that `update_session` returns is visible to the request, whatever the cache, the
  -- database and the lock do.
  pub update_session-IsVisible :
      (svc : SessionService W) (id : String) (now : ℕ) (status : Option SessionStatus)
      (turns : Option ℤ) (cost : Option ℕ) (more : Bool) (k : Option String) (w w' : W)
      (s : Session)
      → update_session rt svc id now status turns cost more k w ≡ (ok (some s), w')
      → IsVisible rt s k
  unfolding update_session
  update_session-IsVisible svc id now status turns cost more k w w' s h =
      Ensures-value
        (Ensures-with_session_lock _ _ _ _ _ _ _
          (do_update-Ensures svc id now status turns cost more k))
        h
