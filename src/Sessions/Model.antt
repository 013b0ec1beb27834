-- ===== src/Sessions/Model.antt =====
-- apps/api/services/session_models.py, utils/session_utils.py and utils/crypto.py
use claude_agent_api.Common.{
  ℕ, String, ◌≡◌, refl, ◌↔◌, Bool, true, Option, none, some, List, ◌==◌, eq_iff, if◌then◌else◌,
}
use claude_agent_api.Common.Int.{ℤ}
use claude_agent_api.Json.{Dict}
use claude_agent_api.Runtime.{Runtime, RuntimeLaws}

pub data SessionStatus : Type 0 where
  active completed error : SessionStatus

unfoldable pub status_text : SessionStatus → String
status_text active = "active"
status_text completed = "completed"
status_text error = "error"

unfoldable pub parse_session_status : Runtime → String → SessionStatus
parse_session_status rt raw =
    let normalised = rt.lower raw in
    if normalised == "completed" then completed else if normalised == "error" then error else active

pub record Session : Type 0 where
  pub id : String
  pub model : String
  pub status : SessionStatus
  pub created_at : ℕ
  pub updated_at : ℕ
  pub total_turns : ℤ
  pub total_cost_usd : Option ℕ
  pub parent_session_id : Option String
  pub owner_api_key_hash : Option String
  pub session_metadata : Option Dict

pub record SessionListResult : Type 0 where
  pub sessions : List Session
  pub total : ℕ
  pub page : ℕ
  pub page_size : ℕ

-- `if x:` for x : str | None holds of a string that is not empty
unfoldable pub truthy : Option String → Option String
truthy none = none
truthy (some s) = if s == "" then none else some s

unfoldable pub hash_api_key : Runtime → String → String
hash_api_key rt api_key = rt.sha256_hex api_key

unfoldable pub verify_api_key : Runtime → String → String → Bool
unfolding hash_api_key
verify_api_key rt api_key hashed = hash_api_key rt api_key == hashed

-- A status survives being written as text and parsed again.
pub parse_session_status-status_text :
    (rt : Runtime)
    → RuntimeLaws rt
    → (s : SessionStatus) → parse_session_status rt (status_text s) ≡ s
unfolding parse_session_status status_text
parse_session_status-status_text rt laws active = rw laws.lower_active refl
parse_session_status-status_text rt laws completed = rw laws.lower_completed refl
parse_session_status-status_text rt laws error = rw laws.lower_error refl

-- A key is verified against the hash of a stored key exactly if the two hashes agree.
pub verify_api_key-hash_api_key :
    (rt : Runtime) (key stored : String)
    → (verify_api_key rt key (hash_api_key rt stored) ≡ true)
      ↔ (hash_api_key rt key ≡ hash_api_key rt stored)
unfolding verify_api_key
verify_api_key-hash_api_key rt key stored = eq_iff _ _
