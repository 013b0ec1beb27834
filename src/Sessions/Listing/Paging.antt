-- ===== src/Sessions/Listing/Paging.antt =====
-- The pages of a listing that the cache gave.
use mathlib.Core.List.{Perm}
use claude_agent_api.Common.{
  select-All, All-take, ap, ℕ, zero, suc, ◌+◌, ◌*◌, ◌≤◌, ◌≡◌, refl, true, false, List, [], ◌∷◌,
  ◌++◌, arith, length, take, drop, select, All, length-take, ◌∙◌,
}
use claude_agent_api.Common.Sorting.{sort, IsOrdered, sort-IsOrdered, sort-perm}
use claude_agent_api.Interfaces.{Filters}
use claude_agent_api.Runtime.{Runtime}
use claude_agent_api.Sessions.Model.{Session}
use claude_agent_api.Sessions.Listing.{
  page_slice, list_cached, matches_metadata_filters, newest_first,
}

module _ {ℓ} {A : Type ℓ} where
  take-nil : (b : ℕ) → take b (let e : List A = [] in e) ≡ []
  take-nil zero = refl
  take-nil (suc b) = refl

  take_add : (a b : ℕ) (xs : List A) → take (a + b) xs ≡ take a xs ++ take b (drop a xs)
  take_add zero b xs = let e : zero + b ≡ b = omega arith in rw e refl
  take_add (suc a) b [] = let e : suc a + b ≡ suc (a + b) = omega arith in rw (e, take-nil b) refl
  take_add (suc a) b (x ∷ xs) =
      let e : suc a + b ≡ suc (a + b) = omega arith in rw e (ap (◌∷◌ x) (take_add a b xs))

  -- The first `n` pages, one after the other.
  abbrev pub pages : ℕ → ℕ → List A → List A
  pages zero size xs = []
  pages (suc n) size xs = pages n size xs ++ page_slice (suc n) size xs

  pages-take : (n size : ℕ) (xs : List A) → pages n size xs ≡ take (n * size) xs
  unfolding page_slice
  pages-take zero size xs = let e : zero * size ≡ 0 = omega arith in rw e refl
  pages-take (suc n) size xs =
      let e : suc n * size ≡ n * size + size = omega arith in
      rw (e, take_add (n * size) size xs, pages-take n size xs) refl

  -- Taking at least as many entries as there are takes them all.
  take_whole : (xs : List A) (n : ℕ) → length xs ≤ n → take n xs ≡ xs
  take_whole [] n _ = take-nil n
  take_whole (x ∷ xs) (suc n) enough = ap (◌∷◌ x) (take_whole xs n (omega (arith, enough)))
  take_whole (x ∷ xs) zero enough = absurd (omega (arith, enough))

  -- As many pages as hold all entries are the whole list: no entry is skipped or shown twice.
  pub pages_all : (n size : ℕ) (xs : List A) → length xs ≤ n * size → pages n size xs ≡ xs
  pages_all n size xs h = pages-take n size xs ∙ take_whole xs (n * size) h

  length-page_slice-le : (p size : ℕ) (xs : List A) → length (page_slice p size xs) ≤ size
  unfolding page_slice
  length-page_slice-le zero size xs = omega arith
  length-page_slice-le (suc p) size xs = omega (arith, length-take size (drop (p * size) xs))

  All-drop {κ} : (P : A → Type κ) (n : ℕ) (xs : List A) → All P xs → All P (drop n xs)
  All-drop P zero xs h = h
  All-drop P (suc n) [] h = tt
  All-drop P (suc n) (x ∷ xs) h = All-drop P n xs h.1

  All-page_slice {κ} :
      (P : A → Type κ) (p size : ℕ) (xs : List A) → All P xs → All P (page_slice p size xs)
  unfolding page_slice
  All-page_slice P zero size xs h = tt
  All-page_slice P (suc p) size xs h = All-take P size _ (All-drop P (p * size) xs h)

newest_first-total : (x y : Session) → newest_first x y ≡ false → newest_first y x ≡ true
unfolding newest_first
newest_first-total x y h = ground arith

-- The sessions that a listing pages through: those that pass the filters, newest first.
abbrev pub listed : Runtime → Filters → List Session → List Session
listed rt filters sessions =
    select (λ s. matches_metadata_filters rt s filters) (sort newest_first sessions)

-- A page has no more than `page_size` sessions, all of them pass every filter, and the total is
-- the number of the sessions that pass, whatever the page.
pub list_cached_page :
    (rt : Runtime) (page page_size : ℕ) (filters : Filters) (sessions : List Session)
    → let r = list_cached rt page page_size filters sessions in
      (length r.sessions ≤ page_size)
      × All (λ s. matches_metadata_filters rt s filters ≡ true) r.sessions
      × (r.total ≡ length (listed rt filters sessions))
unfolding list_cached
list_cached_page rt page page_size filters sessions = (
  length-page_slice-le page page_size (listed rt filters sessions),
  All-page_slice _ page page_size (listed rt filters sessions)
      (select-All _ (sort newest_first sessions)),
  refl,
)

-- The sessions of the pages from the first to the n-th of a listing.
unfoldable pub list_pages : Runtime → ℕ → ℕ → Filters → List Session → List Session
list_pages rt zero page_size filters sessions = []
list_pages rt (suc n) page_size filters sessions =
    list_pages rt n page_size filters sessions
    ++ (list_cached rt (suc n) page_size filters sessions).sessions

list_pages-pages :
    (rt : Runtime) (n page_size : ℕ) (filters : Filters) (sessions : List Session)
    → list_pages rt n page_size filters sessions ≡ pages n page_size (listed rt filters sessions)
unfolding list_pages list_cached
list_pages-pages rt zero page_size filters sessions = refl
list_pages-pages rt (suc n) page_size filters sessions =
    rw (list_pages-pages rt n page_size filters sessions) refl

-- Walking through the pages gives every session that passes the filters exactly once, newest
-- first, once the pages have room for the total that each page reports; and what is sorted is
-- a permutation of what the cache gave.
pub list_pages_complete :
    (rt : Runtime) (n page_size : ℕ) (filters : Filters) (sessions : List Session)
    → (list_cached rt 1 page_size filters sessions).total ≤ n * page_size
    → (list_pages rt n page_size filters sessions ≡ listed rt filters sessions)
      × IsOrdered newest_first (sort newest_first sessions)
      × Perm (sort newest_first sessions) sessions
unfolding list_cached
list_pages_complete rt n page_size filters sessions enough = (
  list_pages-pages rt n page_size filters sessions
      ∙ pages_all n page_size (listed rt filters sessions) enough,
  sort-IsOrdered newest_first newest_first-total sessions,
  sort-perm newest_first sessions,
)
