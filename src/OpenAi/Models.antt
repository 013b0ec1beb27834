-- ===== src/OpenAi/Models.antt =====
-- apps/api/services/openai/models.py: `ModelMapper`; apps/api/schemas/validators.py:
-- `validate_model_name`, with the names of apps/api/types.py.
pub mod Names
use text.Mathlib.Text.{starts_with}
use claude_agent_api.Agent.Handlers.{contains}
use claude_agent_api.Common.{
  ◌||◌, ◌&&◌, not, String, Bool, true, false, Option, none, some, List, [], ◌∷◌, map, ◌==◌,
  if◌then◌else◌,
}
use claude_agent_api.Exec.{Outcome, ok, raise, value_error, ◌>>=?◌}

abbrev pub valid_short_model_names : List String
valid_short_model_names = "sonnet" ∷ "opus" ∷ "haiku" ∷ "gpt-4" ∷ []

abbrev pub valid_full_model_ids : List String
valid_full_model_ids =
    "claude-opus-4-20250514" ∷ "claude-sonnet-4-20250514" ∷ "claude-haiku-4-5-20251001"
    ∷ "claude-sonnet-4-5-20250929" ∷ "claude-3-5-haiku-20241022" ∷ "claude-opus-4-5-20251101"
    ∷ "claude-opus-4-1-20250805" ∷ "claude-3-7-sonnet-20250219" ∷ []

abbrev pub valid_model_prefixes : List String
valid_model_prefixes =
    "claude-sonnet-" ∷ "claude-opus-" ∷ "claude-haiku-" ∷ "claude-3-5-sonnet-" ∷ "claude-3-5-haiku-"
    ∷ "claude-3-opus-" ∷ "claude-3-7-sonnet-" ∷ []

abbrev pub has_prefix : List String → String → Bool
has_prefix [] model = false
has_prefix (p ∷ ps) model = starts_with model p || has_prefix ps model

-- What `validate_model_name` lets pass of a model that is given.
unfoldable pub is_model_name : String → Bool
is_model_name model =
    not (model == "")
    && (contains valid_short_model_names model
        || contains valid_full_model_ids model
        || has_prefix valid_model_prefixes model)

-- A dict of full names and short names, in its order.
abbrev pub Models : Type 0
Models = List (String × String)

abbrev pub claude_models : Models
claude_models =
    ("claude-sonnet-4-5-20250929", "sonnet")
    ∷ ("claude-opus-4-5-20251101", "opus")
    ∷ ("claude-haiku-4-5-20251001", "haiku")
    ∷ []

-- models.get(model)
abbrev pub short_of : Models → String → Option String
short_of [] model = none
short_of ((full, short) ∷ ms) model =
    let later = short_of ms model in if full == model then some short else later

-- `{v: k for k, v in models.items()}.get(alias)`: a later entry replaces an earlier one
abbrev pub full_of : Models → String → Option String
full_of [] alias = none
full_of ((full, short) ∷ ms) alias = elim (full_of ms alias) [
  | some later ↦ some later
  | none ↦ if short == alias then some full else none
]

unfoldable pub to_claude : Models → String → Outcome String
to_claude models model = elim (short_of models model) [
  | some short ↦ ok short
  | none ↦ elim (full_of models model) [ some full ↦ ok model | none ↦ raise value_error ]
]

unfoldable pub to_full_name : Models → String → Outcome String
to_full_name models model = elim (short_of models model) [
  | some short ↦ ok model
  | none ↦ elim (full_of models model) [ some full ↦ ok full | none ↦ raise value_error ]
]

-- The `OpenAIModelInfo` of a model is its id here: the other keys are constants.
unfoldable pub list_models : Models → List String
list_models models = map (λ m. m.0) models

unfoldable pub get_model_info : Models → String → Outcome String
get_model_info models model = to_full_name models model
