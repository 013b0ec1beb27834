-- ===== src/Common/Texts.antt =====
-- Python's `str` methods on the native texts.
use Prim.Native.String.{String, ◌++◌, count}
use text.Mathlib.TextLemmas.{append_inj}
use native.Mathlib.Omega.{arith}
use text.Mathlib.TextEquality.{eq_iff}
use text.Mathlib.Text.{◌==◌}
use mathlib.Core.Path.{◌≡◌}
use mathlib.Core.Logic.{◌≢◌, inl, inr}
use mathlib.Core.Bool.{false}
use claude_agent_api.Common.Tests.{Bool-cases}
use mathlib.Core.List.{List, [], ◌∷◌}

-- sep.join(parts)
abbrev pub join : String → List String → String
join sep [] = ""
join sep (p ∷ []) = p
join sep (p ∷ q ∷ ps) = p ++ (sep ++ join sep (q ∷ ps))

-- Texts with different prefixes of one length differ.
pub prefix-apart : (p q a b : String) → count p ≡ count q → p ≢ q → p ++ a ≢ q ++ b
prefix-apart p q a b same apart e = apart (append_inj {s₁ = p} {s₂ = q} {t₁ = a} {t₂ = b} e same).0

pub eq_flip : (x y : String) → (x == y) ≡ (y == x)
eq_flip x y = ground (arith, eq_iff x y, eq_iff y x)

pub ne-eq : (k j : String) → k ≢ j → (k == j) ≡ false
ne-eq k j apart = elim (Bool-cases (k == j)) [
  | inl e ↦ absurd (apart ((eq_iff k j).0 e))
  | inr e ↦ e
]
