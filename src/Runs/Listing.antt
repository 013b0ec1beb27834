-- ===== src/Runs/Listing.antt =====
-- apps/api/services/assistants/run_service.py: `list_runs`.
use Prim.Native.String.{◌++◌}
use claude_agent_api.Common.{
  ℕ, String, Bool, false, Option, none, some, List, [], ◌∷◌, ltb, length, take, head?, last?, ◌==◌,
  if◌then◌else◌,
}
use claude_agent_api.Common.Int.{lebℤ}
use claude_agent_api.Common.Sorting.{sort}
use claude_agent_api.Json.{Dict, end, field}
use claude_agent_api.Exec.{Outcome, ok, Exec, pure, lift, ◌>>=◌, ◌>>=?◌}
use claude_agent_api.Runtime.{Runtime}
use claude_agent_api.Interfaces.{Cache}
use claude_agent_api.Runs.Model.{Run, parse_cached_run}
use claude_agent_api.Runs.Service.{RunService}

pub record RunListResult : Type 0 where
  pub runs : List Run
  pub first_id : Option String
  pub last_id : Option String
  pub has_more : Bool

-- The payloads that hold a run.
unfoldable pub parse_runs : Runtime → List (Option Dict) → Outcome (List Run)
parse_runs rt [] = ok []
parse_runs rt (none ∷ rows) = parse_runs rt rows
parse_runs rt (some end ∷ rows) = parse_runs rt rows
parse_runs rt (some (field k v d) ∷ rows) = parse_cached_run rt (field k v d) >>=? λ run.
    parse_runs rt rows >>=? λ runs. ok (elim run [ none ↦ runs | some r ↦ r ∷ runs ])

-- `reverse=True` for the order "desc"
unfoldable pub comes_first : String → Run → Run → Bool
comes_first order a b =
    if order == "desc" then lebℤ b.created_at a.created_at else lebℤ a.created_at b.created_at

-- The sorting and the cut at the limit of `list_runs`.
unfoldable pub page_of_runs : ℕ → String → List Run → RunListResult
page_of_runs limit order runs =
    let page = take limit (sort (comes_first order) runs) in
    record {
      runs = page;
      first_id = elim (head? page) [ none ↦ none | some r ↦ some r.id ];
      last_id = elim (last? page) [ none ↦ none | some r ↦ some r.id ];
      has_more = ltb limit (length runs);
    }

module _ {W : Type 0} (rt : Runtime) (svc : RunService W) where
  list_cached : Cache W → ℕ → String → List String → Exec W RunListResult
  list_cached c limit order keys = do
    cached_rows ← c.get_many_json keys
    runs ← lift (parse_runs rt cached_rows)
    pure (page_of_runs limit order runs)

  no_runs : RunListResult
  no_runs = record { runs = []; first_id = none; last_id = none; has_more = false }

  unfoldable pub list_runs : String → ℕ → String → Exec W RunListResult
  unfolding list_cached no_runs
  list_runs thread_id limit order = elim svc.cache [
    | none ↦ pure no_runs
    | some c ↦ do
      keys ← c.scan_keys ("run:" ++ (thread_id ++ ":*")) 1000
      elim keys [ [] ↦ pure no_runs | k ∷ ks ↦ list_cached c limit order (k ∷ ks) ]
  ]
