-- ===== src/Runs/Paging.antt =====
-- The page that `list_runs` makes of the runs that the cache gave.
use mathlib.Core.List.{Perm}
use claude_agent_api.Common.{
  ℕ, zero, suc, ◌≤◌, ◌<◌, String, ◌≡◌, ◌↔◌, refl, ap, true, false, List, [], ◌∷◌, ◌++◌, arith,
  length, take, drop, length-take,
}
use claude_agent_api.Common.Int.{ℤ, lebℤ}
use claude_agent_api.Common.Sorting.{sort, IsOrdered, sort-IsOrdered, sort-perm}
use claude_agent_api.Runs.Model.{Run}
use claude_agent_api.Runs.Listing.{page_of_runs, comes_first}

lebℤ-total : (a b : ℤ) → lebℤ a b ≡ false → lebℤ b a ≡ true
lebℤ-total a b h = ground arith

comes_first-total :
    (order : String) (x y : Run) → comes_first order x y ≡ false → comes_first order y x ≡ true
unfolding comes_first
comes_first-total order x y h =
    ground (arith, lebℤ-total x.created_at y.created_at, lebℤ-total y.created_at x.created_at)

take-append-drop {ℓ} : {A : Type ℓ} (n : ℕ) (xs : List A) → take n xs ++ drop n xs ≡ xs
take-append-drop zero xs = refl
take-append-drop (suc n) [] = refl
take-append-drop (suc n) (x ∷ xs) = ap (◌∷◌ x) (take-append-drop n xs)

-- The page is the start of the runs in the order asked for, which are a permutation of the runs
-- that were found; it has no more than `limit` runs; and `has_more` is set exactly if some were
-- cut off.
pub page_of_runs_lem :
    (limit : ℕ) (order : String) (runs : List Run)
    → let page = page_of_runs limit order runs in
      let sorted = sort (comes_first order) runs in
      (page.runs ++ drop limit sorted ≡ sorted)
      × IsOrdered (comes_first order) sorted
      × Perm sorted runs
      × (length page.runs ≤ limit)
      × ((page.has_more ≡ true) ↔ (limit < length runs))
unfolding page_of_runs
page_of_runs_lem limit order runs =
    let sorted = sort (comes_first order) runs in
    (
      take-append-drop limit sorted,
      sort-IsOrdered (comes_first order) (comes_first-total order) runs,
      sort-perm (comes_first order) runs,
      omega (arith, length-take limit sorted),
      ground arith,
    )
