-- ===== src/Assistants/Ownership.antt =====
-- Who may see an assistant: `_enforce_owner`, and what the operations return and refuse.
use claude_agent_api.Common.{
  ℕ, String, ◌≡◌, ◌⊎◌, refl, inl, inr, Option, none, some, arith, ◌==◌, eq_iff, Bool-cases,
}
use claude_agent_api.Exec.{Outcome, ok, raise, lift}
use claude_agent_api.Exec.Ensures.{
  Ensures, OkIs, Ensures-pure, Ensures-lift, Ensures-catch, Ensures-bind, Ensures-bind_of,
  Ensures-value,
}
use claude_agent_api.Runtime.{Runtime}
use claude_agent_api.Sessions.Model.{truthy, hash_api_key}
use claude_agent_api.Assistants.Model.{
  Assistant, AssistantRow, AssistantFields, AssistantRepository, map_assistant_row,
}
use claude_agent_api.Assistants.Service.{
  AssistantService, assistant_not_found, check_owner, enforce_owner, get_assistant, get_from_db,
  found_in_db, check_cached, update_found, update_assistant, apply_fields,
}

abbrev pub Matches : Runtime → Option String → Option String → Type 0
Matches rt none stored = Unit
Matches rt (some key) none = Unit
Matches rt (some key) (some stored) = stored ≡ hash_api_key rt key

-- The request has no key, the assistant is public, or its hash is the hash of the key.
abbrev pub IsVisible : Runtime → Assistant → Option String → Type 0
IsVisible rt a current_api_key = Matches rt (truthy current_api_key) (truthy a.owner_api_key_hash)

check_owner_lem :
    (rt : Runtime) (a : Assistant) (current stored : Option String)
    → ((check_owner rt a current stored ≡ ok a) × Matches rt current stored)
      ⊎ ((check_owner rt a current stored ≡ raise (assistant_not_found a.id))
          × ¬ Matches rt current stored)
unfolding check_owner
check_owner_lem rt a none stored = inl (refl, tt)
check_owner_lem rt a (some key) none = inl (refl, tt)
check_owner_lem rt a (some key) (some stored) = elim (Bool-cases (stored == hash_api_key rt key)) [
  | inl same ↦ rw same (inl (refl, (eq_iff _ _).0 same))
  | inr other ↦ rw other (inr (refl, λ h. ground (arith, h, eq_iff stored (hash_api_key rt key))))
]

pub enforce_owner_cases :
    (rt : Runtime) (a : Assistant) (current_api_key : Option String)
    → ((enforce_owner rt a current_api_key ≡ ok a) × IsVisible rt a current_api_key)
      ⊎ ((enforce_owner rt a current_api_key ≡ raise (assistant_not_found a.id))
          × ¬ IsVisible rt a current_api_key)
unfolding enforce_owner
enforce_owner_cases rt a current_api_key =
    check_owner_lem rt a (truthy current_api_key) (truthy a.owner_api_key_hash)

enforce_owner-IsVisible :
    (rt : Runtime) (s t : Assistant) (current_api_key : Option String)
    → enforce_owner rt s current_api_key ≡ ok t
    → IsVisible rt t current_api_key
enforce_owner-IsVisible rt s t current_api_key h = elim (enforce_owner_cases rt s current_api_key) [
  | inl (passed, visible) ↦ let e : s ≡ t = cc in rw (← e) visible
  | inr (refused, hidden) ↦ cc
]

abbrev SomeVisible : Runtime → Option String → Option Assistant → Type 0
SomeVisible rt k none = Unit
SomeVisible rt k (some s) = IsVisible rt s k

enforce_owner-Ensures :
    {W : Type 0} (rt : Runtime) (s : Assistant) (k : Option String)
    → Ensures {W = W} (λ t. IsVisible rt t k) (lift (enforce_owner rt s k))
enforce_owner-Ensures rt s k =
    Ensures-lift (enforce_owner rt s k) (check (enforce_owner rt s k) refl)
  where
    check : (r : Outcome Assistant) → enforce_owner rt s k ≡ r → OkIs (λ t. IsVisible rt t k) r
    check (ok t) e = enforce_owner-IsVisible rt s t k e
    check (raise e) _ = tt

module _ {W : Type 0} (rt : Runtime) where
  found_in_db-Ensures :
      (svc : AssistantService W) (k : Option String) (row : Option AssistantRow)
      → Ensures (SomeVisible rt k) (found_in_db rt svc k row)
  unfolding found_in_db
  found_in_db-Ensures svc k none = Ensures-pure none tt
  found_in_db-Ensures svc k (some row) =
      Ensures-bind_of _ _ (enforce_owner-Ensures rt (map_assistant_row row) k)
        (λ s h. Ensures-bind _ _ (λ _. Ensures-pure (some s) h))

  get_from_db-Ensures :
      (svc : AssistantService W) (id : String) (k : Option String)
      → Ensures (SomeVisible rt k) (get_from_db rt svc id k)
  unfolding get_from_db
  get_from_db-Ensures svc id k = go svc.db_repo
    where
      go :
          (r : Option (AssistantRepository W))
          → Ensures (SomeVisible rt k) (get_from_db rt (record svc { db_repo = r }) id k)
      go none = Ensures-pure none tt
      go (some repo) =
          Ensures-catch _ _
            (Ensures-bind _ _ (found_in_db-Ensures (record svc { db_repo = some repo }) k))
            (λ e. Ensures-pure none tt)

  check_cached-Ensures :
      (svc : AssistantService W) (id : String) (k : Option String) (cached : Option Assistant)
      → Ensures (SomeVisible rt k) (check_cached rt svc id k cached)
  unfolding check_cached
  check_cached-Ensures svc id k none = get_from_db-Ensures svc id k
  check_cached-Ensures svc id k (some s) =
      Ensures-bind_of _ _ (enforce_owner-Ensures rt s k) (λ t h. Ensures-pure (some t) h)

  get_assistant-Ensures :
      (svc : AssistantService W) (id : String) (k : Option String)
      → Ensures (SomeVisible rt k) (get_assistant rt svc id k)
  unfolding get_assistant
  get_assistant-Ensures svc id k = Ensures-bind _ _ (check_cached-Ensures svc id k)

  -- Whatever the cache and the database hold, and whatever they do, a assistant that `get_assistant`
  -- returns is visible to the request.
  pub get_assistant-IsVisible :
      (svc : AssistantService W) (id : String) (k : Option String) (w w' : W) (s : Assistant)
      → get_assistant rt svc id k w ≡ (ok (some s), w')
      → IsVisible rt s k
  get_assistant-IsVisible svc id k w w' s h = Ensures-value (get_assistant-Ensures svc id k) h

  update_found-Ensures :
      (svc : AssistantService W) (id : String) (now : ℕ) (model : Option String)
      (fields : AssistantFields) (k : Option String) (found : Option Assistant)
      → SomeVisible rt k found
      → Ensures (SomeVisible rt k) (update_found rt svc id now model fields found)
  unfolding update_found
  update_found-Ensures svc id now model fields k none h = Ensures-pure none tt
  update_found-Ensures svc id now model fields k (some a) h = Ensures-bind _ _ (λ _.
      Ensures-bind _ _
        (λ _. Ensures-pure (some (apply_fields now model fields a)) (unfold apply_fields in h)))

  -- An assistant that `update_assistant` returns is visible to the request, whatever the cache and
  -- the database do.
  pub update_assistant-IsVisible :
      (svc : AssistantService W) (id : String) (now : ℕ) (model : Option String)
      (fields : AssistantFields) (k : Option String) (w w' : W) (a : Assistant)
      → update_assistant rt svc id now model fields k w ≡ (ok (some a), w')
      → IsVisible rt a k
  unfolding update_assistant
  update_assistant-IsVisible svc id now model fields k w w' a h =
      Ensures-value
        (Ensures-bind_of _ _ (get_assistant-Ensures svc id k)
          (λ found v. update_found-Ensures svc id now model fields k found v))
        h
