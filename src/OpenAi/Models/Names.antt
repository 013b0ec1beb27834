-- ===== src/OpenAi/Models/Names.antt =====
-- Full names and short names.
use claude_agent_api.Common.{
  String, ◌≡◌, ◌⊎◌, refl, none, some, [], ◌∷◌, arith, eq_iff, Option-cases, inl, inr,
}
use claude_agent_api.Exec.{ok, raise, value_error}
use claude_agent_api.OpenAi.Models.{Models, short_of, full_of, to_claude, to_full_name}

-- No full name twice, as in a dict.
abbrev pub IsDict : Models → Type 0
IsDict [] = Unit
IsDict ((full, short) ∷ ms) = (short_of ms full ≡ none) × IsDict ms

short_of-full_of :
    (models : Models) (alias full : String)
    → IsDict models
    → full_of models alias ≡ some full
    → short_of models full ≡ some alias
short_of-full_of [] alias full d h = absurd (ground (arith, h))
short_of-full_of ((f, s) ∷ ms) alias full d h = elim (Option-cases (full_of ms alias)) [
  | inl gone ↦ ground (arith, gone, h, eq_iff s alias, eq_iff f full)
  | inr (later, there) ↦
      ground (arith, there, h, eq_iff f full, short_of-full_of ms alias later d.1 there, d.0)
]

-- A name has a short name exactly if it has a full name, every other name raises ValueError; and
-- the full name has the same short name, in any dict of models.
pub to_claude-to_full_name :
    (models : Models) (model : String)
    → IsDict models
    → ((to_claude models model ≡ raise value_error)
        × (to_full_name models model ≡ raise value_error))
      ⊎ ((short : String) × (full : String) × (to_claude models model ≡ ok short)
          × (to_full_name models model ≡ ok full)
          × (to_claude models full ≡ ok short))
unfolding to_claude to_full_name
to_claude-to_full_name models model d = elim (Option-cases (short_of models model)) [
  | inl e ↦ elim (Option-cases (full_of models model)) [
    | inl f ↦ inl (rw (to_claude, e, f) refl, rw (to_full_name, e, f) refl)
    | inr (full, f) ↦ inr (
      model,
      full,
      rw (to_claude, e, f) refl,
      rw (to_full_name, e, f) refl,
      rw (to_claude, short_of-full_of models model full d f) refl,
    )
  ]
  | inr (short, e) ↦
      inr (short, model, rw (to_claude, e) refl, rw (to_full_name, e) refl, rw (to_claude, e) refl)
]
