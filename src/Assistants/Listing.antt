-- ===== src/Assistants/Listing.antt =====
-- apps/api/services/assistants/assistant_service.py: `list_assistants`.
use mathlib.Core.Option
use claude_agent_api.Common.{
  ℕ, suc, String, Bool, true, false, Option, none, some, List, [], ◌∷◌, map, select, ltb, leb,
  length, take, head?, last?, ◌==◌, if◌then◌else◌,
}
use claude_agent_api.Common.Sorting.{sort}
use claude_agent_api.Exec.{Outcome, ok, Exec, pure, lift, catch, ◌>>=◌, ◌>>=?◌}
use claude_agent_api.Json.{Dict, end, field}
use claude_agent_api.Runtime.{Runtime}
use claude_agent_api.Interfaces.{Cache}
use claude_agent_api.Sessions.Model.{truthy, hash_api_key}
use claude_agent_api.Assistants.Model.{
  Assistant, AssistantRow, AssistantRepository, parse_cached_assistant, map_assistant_row,
}
use claude_agent_api.Assistants.Service.{AssistantService}

pub record AssistantListResult : Type 0 where
  pub data_ : List Assistant
  pub first_id : Option String
  pub last_id : Option String
  pub has_more : Bool

abbrev pub id_of : Option Assistant → Option String
id_of none = none
id_of (some a) = some a.id

unfoldable pub list_result : List Assistant → Bool → AssistantListResult
list_result page has_more = record {
  data_ = page;
  first_id = id_of (head? page);
  last_id = id_of (last? page);
  has_more = has_more;
}

-- The payloads that hold an assistant.
unfoldable pub parse_assistants : Runtime → List (Option Dict) → Outcome (List Assistant)
parse_assistants rt [] = ok []
parse_assistants rt (none ∷ rows) = parse_assistants rt rows
parse_assistants rt (some end ∷ rows) = parse_assistants rt rows
parse_assistants rt (some (field k v d) ∷ rows) =
    parse_cached_assistant rt (field k v d) >>=? λ assistant.
    parse_assistants rt rows >>=? λ rest. ok (elim assistant [ none ↦ rest | some a ↦ a ∷ rest ])

-- The test on the owner: without an owner's key every assistant passes, with one those that have
-- no hash, or the hash of the key.
unfoldable pub passes_owner : Option String → Option String → Bool
passes_owner none stored = true
passes_owner (some owner_hash) none = true
passes_owner (some owner_hash) (some stored) = stored == owner_hash

-- `reverse=True` for the order "desc"
unfoldable pub comes_first : String → Assistant → Assistant → Bool
comes_first order a b =
    if order == "desc" then leb b.created_at a.created_at else leb a.created_at b.created_at

-- The filter, the sorting and the cut at the limit.
unfoldable pub page_of_assistants :
    ℕ → String → Option String → List Assistant → AssistantListResult
page_of_assistants limit order owner_hash parsed =
    let own = select (λ a. passes_owner owner_hash a.owner_api_key_hash) parsed in
    list_result (take limit (sort (comes_first order) own)) (ltb limit (length own))

-- One row more than the limit was asked for.
unfoldable pub page_of_rows : ℕ → List AssistantRow → AssistantListResult
page_of_rows limit rows =
    let more = ltb limit (length rows) in
    list_result (map map_assistant_row (if more then take limit rows else rows)) more

no_assistants : AssistantListResult
no_assistants = record { data_ = []; first_id = none; last_id = none; has_more = false }

module _ {W : Type 0} (rt : Runtime) (svc : AssistantService W) (limit : ℕ) (order : String)
    (after before owner_api_key : Option String) where
  unfoldable pub parse_page : Cache W → List String → Exec W AssistantListResult
  unfolding no_assistants
  parse_page c [] = pure no_assistants
  parse_page c (k ∷ ks) = do
    cached_rows ← c.get_many_json (k ∷ ks)
    parsed ← lift (parse_assistants rt cached_rows)
    pure (
        page_of_assistants limit order (Option.map (hash_api_key rt) (truthy owner_api_key)) parsed)

  unfoldable pub list_cached : Exec W AssistantListResult
  unfolding parse_page
  list_cached = elim svc.cache [
    | none ↦ pure no_assistants
    | some c ↦ do keys ← c.scan_keys "assistant:asst_*" 1000; parse_page c keys
  ]

  list_in_db : AssistantRepository W → Exec W AssistantListResult
  list_in_db repo =
      catch
        (do
          (rows, total) ← repo.list_assistant_rows owner_api_key (suc limit) 0 order after before
          pure (page_of_rows limit rows))
        (λ _. pure no_assistants)

  unfoldable pub list_assistants : Exec W AssistantListResult
  unfolding list_cached list_in_db
  list_assistants = elim svc.db_repo [ none ↦ list_cached | some repo ↦ list_in_db repo ]
