-- ===== src/Common/Sorting.antt =====
-- Python's stable `list.sort(key=..., reverse=...)`, by insertion, with the two facts that its
-- callers rely on: the result is a permutation of the input, and it is ordered by the key.
use mathlib.Core.List.{List, [], ◌∷◌, Perm}
use mathlib.Core.List.Perm
use mathlib.Core.Path.{◌≡◌}
use mathlib.Core.Bool.{Bool, true, false}
use mathlib.Core.Logic.{inl, inr}
use native.Mathlib.Omega.{arith}
use claude_agent_api.Common.Lists.{All}
use claude_agent_api.Common.Tests.{if◌then◌else◌, Bool-cases}

module _ {ℓ} {A : Type ℓ} (before : A → A → Bool) where
  -- `x` goes in front of the first element that must not stand before it
  pub insert_sorted : A → List A → List A
  insert_sorted x [] = x ∷ []
  insert_sorted x (y ∷ ys) =
      let rest = insert_sorted x ys in if before x y then x ∷ y ∷ ys else y ∷ rest

  unfoldable pub sort : List A → List A
  unfolding insert_sorted
  sort [] = []
  sort (x ∷ xs) = insert_sorted x (sort xs)

  -- every element may stand before the next
  abbrev pub IsOrdered : List A → Type 0
  IsOrdered [] = Unit
  IsOrdered (x ∷ []) = Unit
  IsOrdered (x ∷ y ∷ ys) = (before x y ≡ true) × IsOrdered (y ∷ ys)

  insert_sorted-perm : (x : A) (ys : List A) → Perm (insert_sorted x ys) (x ∷ ys)
  unfolding insert_sorted
  insert_sorted-perm x [] = Perm.refl (x ∷ [])
  insert_sorted-perm x (y ∷ ys) = elim (Bool-cases (before x y)) [
    | inl e ↦ rw e (Perm.refl (x ∷ y ∷ ys))
    | inr e ↦ rw e (Perm.trans (Perm.cons y (insert_sorted-perm x ys)) (Perm.swap x y ys))
  ]

  pub sort-perm : (xs : List A) → Perm (sort xs) xs
  unfolding sort
  sort-perm [] = Perm.refl []
  sort-perm (x ∷ xs) = Perm.trans (insert_sorted-perm x (sort xs)) (Perm.cons x (sort-perm xs))

  pub All-insert_sorted {κ} :
      (P : A → Type κ) (x : A) (ys : List A) → P x → All P ys → All P (insert_sorted x ys)
  unfolding insert_sorted
  All-insert_sorted P x [] h hs = (h, tt)
  All-insert_sorted P x (y ∷ ys) h hs = elim (Bool-cases (before x y)) [
    | inl e ↦ rw e (h, hs)
    | inr e ↦ rw e (hs.0, All-insert_sorted P x ys h hs.1)
  ]

  pub All-sort {κ} : (P : A → Type κ) (xs : List A) → All P xs → All P (sort xs)
  unfolding sort
  All-sort P [] hs = tt
  All-sort P (x ∷ xs) hs = All-insert_sorted P x (sort xs) hs.0 (All-sort P xs hs.1)

  module _ (total : (x y : A) → before x y ≡ false → before y x ≡ true) where
    insert_sorted-IsOrdered : (x : A) (ys : List A) → IsOrdered ys → IsOrdered (insert_sorted x ys)
    unfolding insert_sorted
    insert_sorted-IsOrdered x [] h = tt
    insert_sorted-IsOrdered x (y ∷ []) h = elim (Bool-cases (before x y)) [
      | inl e ↦ rw e (e, tt)
      | inr e ↦ rw e (total x y e, tt)
    ]
    insert_sorted-IsOrdered x (y ∷ z ∷ zs) h =
        let ih = insert_sorted-IsOrdered x (z ∷ zs) h.1 in ground (arith, ih, total x y)

    pub sort-IsOrdered : (xs : List A) → IsOrdered (sort xs)
    unfolding sort
    sort-IsOrdered [] = tt
    sort-IsOrdered (x ∷ xs) = insert_sorted-IsOrdered x (sort xs) (sort-IsOrdered xs)
