-- ===== src/Interfaces.antt =====
-- apps/api/protocols.py: the protocols that the services are written against, over the world `W`
-- that the implementations change. Every call may raise.
use claude_agent_api.Common.{ℕ, String, Bool, Option, List}
use claude_agent_api.Common.Int.{ℤ}
use claude_agent_api.Json.{Dict}
use claude_agent_api.Exec.{Exec}

pub record Cache (W : Type 0) : Type 0 where
  -- `get`
  pub get_text : String → Exec W (Option String)
  pub cache_set : String → String → Option ℕ → Exec W Bool
  pub delete : String → Exec W Bool
  pub exists : String → Exec W Bool
  pub expire : String → ℕ → Exec W Bool
  pub add_to_set : String → String → Exec W Bool
  pub remove_from_set : String → String → Exec W Bool
  pub set_members : String → Exec W (List String)
  -- the lock's key, its ttl and a fresh value; `none` if another holds it
  pub acquire_lock : String → ℕ → Exec W (Option String)
  pub release_lock : String → String → Exec W Bool
  pub scan_keys : String → ℕ → Exec W (List String)
  pub get_json : String → Exec W (Option Dict)
  pub get_many_json : List String → Exec W (List (Option Dict))
  pub set_json : String → Dict → Option ℕ → Exec W Bool

-- apps/api/models/session.py: a row of the table `sessions`. Ids are the text of their UUIDs.
pub record SessionRow : Type 0 where
  pub id : String
  pub model : String
  pub status : String
  pub total_turns : ℤ
  pub total_cost_usd : Option String
  pub parent_session_id : Option String
  pub owner_api_key_hash : Option String
  pub created_at : ℕ
  pub updated_at : ℕ
  pub session_metadata : Option Dict

-- The filters of `list_sessions`.
pub record Filters : Type 0 where
  pub mode : Option String
  pub project_id : Option String
  pub tags : Option (List String)
  pub search : Option String

pub record SessionRepository (W : Type 0) : Type 0 where
  -- session id, model, parent, owner's API key
  pub create : String → String → Option String → Option String → Exec W SessionRow
  pub get_row : String → Exec W (Option SessionRow)
  -- session id, status, turns, cost
  pub update : String → Option String → Option ℤ → Option ℕ → Exec W (Option SessionRow)
  pub update_metadata : String → Dict → Exec W (Option SessionRow)
  -- owner's API key, limit, offset, filters; the page and the total
  pub list_rows : String → ℕ → ℤ → Filters → Exec W (List SessionRow × ℕ)
  pub delete_row : String → Exec W Bool

-- `RunRepository` of apps/api/services/assistants/run_service.py
pub record RunRepository (W : Type 0) : Type 0 where
  -- run id, thread id, assistant id, status, model, instructions, tools, metadata
  pub create_run_row :
      String
      → String
      → String
      → String
      → String
      → Option String
      → List Dict
      → List (String × String)
      → Exec W (Unit {0})
  -- run id, status, required action, last error, usage
  pub update_run_row :
      String → Option String → Option Dict → Option Dict → Option Dict → Exec W Bool
