-- ===== src/Assistants/Paging.antt =====
-- What the listing of the cache shows, and to whom.
use mathlib.Core.Option
use claude_agent_api.Common.{
  Bool, ℕ, ◌≤◌, String, ◌≡◌, true, Option, none, some, List, [], ◌∷◌, arith, length, select,
  select-All, All, All-take, length-take, eq_iff,
}
use claude_agent_api.Common.Sorting.{sort, All-sort}
use claude_agent_api.Exec.{ok}
use claude_agent_api.Exec.Ensures.{Ensures, Ensures-pure, Ensures-bind, Ensures-value}
use claude_agent_api.Interfaces.{Cache}
use claude_agent_api.Runtime.{Runtime}
use claude_agent_api.Sessions.Model.{truthy, hash_api_key}
use claude_agent_api.Assistants.Model.{Assistant, AssistantRepository}
use claude_agent_api.Assistants.Service.{AssistantService}
use claude_agent_api.Assistants.Listing.{
  AssistantListResult, list_result, comes_first, passes_owner, page_of_assistants, parse_page,
  list_cached, list_assistants,
}

-- Without an owner's key all assistants are listed, with one the public ones and the owner's.
abbrev pub Belongs : Option String → Option String → Type 0
Belongs none stored = Unit
Belongs (some owner_hash) none = Unit
Belongs (some owner_hash) (some stored) = stored ≡ owner_hash

passes_owner-Belongs :
    (owner_hash stored : Option String)
    → passes_owner owner_hash stored ≡ true
    → Belongs owner_hash stored
unfolding passes_owner
passes_owner-Belongs none stored h = tt
passes_owner-Belongs (some owner_hash) none h = tt
passes_owner-Belongs (some owner_hash) (some stored) h = (eq_iff stored owner_hash).0 h

All-map :
    {P Q : Assistant → Type 0}
    → ((a : Assistant) → P a → Q a)
    → (xs : List Assistant) → All P xs
    → All Q xs
All-map f [] h = tt
All-map f (x ∷ xs) h = (f x h.0, All-map f xs h.1)

-- The page is within the limit, and everything on it belongs to the owner.
abbrev pub IsPage : ℕ → Option String → AssistantListResult → Type 0
IsPage limit owner_hash r =
    (length r.data_ ≤ limit) × All (λ a. Belongs owner_hash a.owner_api_key_hash) r.data_

page_of_assistants-IsPage :
    (limit : ℕ) (order : String) (owner_hash : Option String) (parsed : List Assistant)
    → IsPage limit owner_hash (page_of_assistants limit order owner_hash parsed)
unfolding page_of_assistants list_result
page_of_assistants-IsPage limit order owner_hash parsed =
    let passes : Assistant → Bool = λ a. passes_owner owner_hash a.owner_api_key_hash in
    let own = select passes parsed in
    (
      omega (arith, length-take limit (sort (comes_first order) own)),
      All-take _ limit _ (
          All-sort (comes_first order) _ own (
            All-map (λ a. passes_owner-Belongs owner_hash a.owner_api_key_hash) own
              (select-All passes parsed))),
    )

module _ {W : Type 0} (rt : Runtime) (svc : AssistantService W) (limit : ℕ) (order : String)
    (after before owner_api_key : Option String) where
  abbrev pub owner_hash : Option String
  owner_hash = Option.map (hash_api_key rt) (truthy owner_api_key)

  parse_page-Ensures :
      (c : Cache W) (keys : List String)
      → Ensures
          (IsPage limit owner_hash)
          (parse_page rt svc limit order after before owner_api_key c keys)
  unfolding parse_page
  parse_page-Ensures c [] = Ensures-pure _ (omega arith, tt)
  parse_page-Ensures c (k ∷ ks) = Ensures-bind _ _ (λ rows.
      Ensures-bind _ _
        (λ parsed. Ensures-pure _ (page_of_assistants-IsPage limit order owner_hash parsed)))

  list_cached-Ensures :
      (c : Option (Cache W))
      → Ensures
          (IsPage limit owner_hash)
          (list_cached rt (record svc { cache = c }) limit order after before owner_api_key)
  unfolding list_cached
  list_cached-Ensures none = Ensures-pure _ (omega arith, tt)
  list_cached-Ensures (some c) = Ensures-bind _ _ (λ keys. parse_page-Ensures c keys)

  list_assistants-Ensures :
      (repo : Option (AssistantRepository W))
      → repo ≡ none
      → Ensures (IsPage limit owner_hash) (
          list_assistants rt (record svc { db_repo = repo }) limit order after before owner_api_key)
  unfolding list_assistants
  list_assistants-Ensures none h = list_cached-Ensures svc.cache
  list_assistants-Ensures (some repo) h = absurd (ground (arith, h))

  -- Without a database, whatever the cache holds and does: a listing has no more assistants than
  -- the limit, and for an owner's key it has only public assistants and those of the owner.
  pub list_assistants-IsPage :
      (w w' : W) (r : AssistantListResult)
      → svc.db_repo ≡ none
      → list_assistants rt svc limit order after before owner_api_key w ≡ (ok r, w')
      → IsPage limit owner_hash r
  list_assistants-IsPage w w' r alone h =
      Ensures-value (list_assistants-Ensures svc.db_repo alone) h
