-- ===== src/Runtime.antt =====
-- What the code takes from Python's standard library, as arguments of the model.
use claude_agent_api.Common.{ℕ, String, ◌≡◌}
use claude_agent_api.Common.Int.{ℤ}
use claude_agent_api.Exec.{Outcome, ok}
use claude_agent_api.Json.{Json, str}

-- A `datetime` is its instant in microseconds: the program makes UTC values only. A `Decimal` is
-- its decimal text.
pub record Runtime : Type 0 where
  -- str(v) for v that is no string
  pub repr : Json → String
  pub int_of_float : ℕ → Outcome ℤ
  pub int_of_str : String → Outcome ℤ
  pub float_of_int : ℤ → Outcome ℕ
  pub float_of_str : String → Outcome ℕ
  pub float_of_decimal : String → ℕ
  pub isoformat : ℕ → String
  pub fromisoformat : String → Outcome ℕ
  -- str(UUID(text))
  pub uuid : String → Outcome String
  -- hashlib.new("sha256", text.encode()).hexdigest()
  pub sha256_hex : String → String
  pub lower : String → String

-- What is relied on: `fromisoformat` inverts `isoformat`, and `lower` keeps lower-case words.
pub record RuntimeLaws (rt : Runtime) : Type 0 where
  pub fromisoformat-isoformat : (t : ℕ) → rt.fromisoformat (rt.isoformat t) ≡ ok t
  pub lower_active : rt.lower "active" ≡ "active"
  pub lower_completed : rt.lower "completed" ≡ "completed"
  pub lower_error : rt.lower "error" ≡ "error"

-- str(v)
unfoldable pub to_str : Runtime → Json → String
to_str rt (str s) = s
to_str rt v = rt.repr v
