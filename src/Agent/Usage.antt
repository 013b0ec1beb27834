-- ===== src/Agent/Usage.antt =====
-- Sums of the counts that usages report.
use claude_agent_api.Common.{
  ◌∙◌, sym, ap, subst, eq_flip, ℕ, ◌+◌, String, ◌≡◌, ◌⊎◌, inl, inr, refl, Bool, true, false, ◌&&◌,
  Option, none, some, arith, Bool-cases, ◌==◌, if◌then◌else◌, eq_iff,
}
use claude_agent_api.Common.Int.{pos, negsuc}
use claude_agent_api.Exec.{Outcome, ok}
use claude_agent_api.Json.{
  Json, Dict, null, bool, int, float, str, arr, obj, end, field, get, put, get-put,
}
use claude_agent_api.Agent.Aggregator.{Library, plus, plus_at, int_in, add_entries}

abbrev pub is_count : Json → Bool
is_count (int (pos n)) = true
is_count v = false

abbrev pub is_missing : Option Json → Bool
is_missing none = true
is_missing (some v) = false

-- Counts by their names, each name once.
abbrev pub is_counts : Dict → Bool
is_counts end = true
is_counts (field k v d) = is_count v && is_missing (get k d) && is_counts d

abbrev pub number_of : Option Json → ℕ
number_of (some (int (pos n))) = n
number_of v = 0

-- A count, 0 where it is missing.
abbrev pub count : String → Dict → ℕ
count k d = number_of (get k d)

count_form : (v : Json) → is_count v ≡ true → (n : ℕ) × (v ≡ int (pos n))
count_form (int (pos n)) h = (n, refl)
count_form (int (negsuc n)) h = cc
count_form null h = cc
count_form (bool b) h = cc
count_form (float x) h = cc
count_form (str s) h = cc
count_form (arr xs) h = cc
count_form (obj d) h = cc

get_counts :
    (k : String) (d : Dict)
    → is_counts d ≡ true
    → (get k d ≡ none) ⊎ ((n : ℕ) × (get k d ≡ some (int (pos n))))
unfolding get
get_counts k end h = inl refl
get_counts k (field j v d) h =
    let form = count_form v (ground (arith, h)) in
    elim (Bool-cases (j == k)) [
      | inl e ↦ rw (e) (inr (form.0, ap some form.1))
      | inr e ↦ rw (e) (get_counts k d (ground (arith, h)))
    ]

is_counts-put :
    (k : String) (n : ℕ) (d : Dict) → is_counts d ≡ true → is_counts (put k (int (pos n)) d) ≡ true
unfolding get put
is_counts-put k n end h = refl
is_counts-put k n (field j v d) h = elim (Bool-cases (j == k)) [
  | inl e ↦ rw (e) (
      ground (
        arith,
        h,
        subst (λ s. is_missing (get s d) && is_counts d ≡ true) ((eq_iff j k).0 e)
            (ground (arith, h)),
      ))
  | inr e ↦ rw (e) (
      ground (
        arith,
        h,
        e,
        eq_flip j k,
        get-put k j (int (pos n)) d,
        is_counts-put k n d (ground (arith, h)),
      ))
]

plus_at_lem :
    (lib : Library) (k : String) (n : ℕ) (d : Dict)
    → is_counts d ≡ true
    → plus_at lib k (pos n) d ≡ ok (put k (int (pos (count k d + n))) d)
unfolding plus_at plus
plus_at_lem lib k n d h = elim (get_counts k d h) [
  | inl e ↦ rw (e) (ground arith)
  | inr (m, e) ↦ rw (e) (ground arith)
]

count-put :
    (k j : String) (n : ℕ) (d : Dict)
    → count j (put k (int (pos n)) d) ≡ (if k == j then n else count j d)
count-put k j n d = elim (Bool-cases (k == j)) [
  | inl e ↦ rw (get-put k j (int (pos n)) d, e) refl
  | inr e ↦ rw (get-put k j (int (pos n)) d, e) refl
]

-- What adding a dict of counts to another gives.
pub record Sums (usage d : Dict) (r : Outcome (Unit {0})) (after : Dict) : Type 0 where
  pub done : r ≡ ok tt
  pub counts : is_counts after ≡ true
  pub count_lem : (k : String) → count k after ≡ count k d + count k usage

count_missing : (o : Option Json) → is_missing o ≡ true → number_of o ≡ 0
count_missing none h = refl
count_missing (some v) h = cc

count_field :
    (j : String) (n : ℕ) (rest d : Dict)
    → is_missing (get j rest) ≡ true
    → (k : String)
    → (if j == k then count j d + n else count k d) + count k rest
      ≡ count k d + count k (field j (int (pos n)) rest)
unfolding get
count_field j n rest d u k = elim (Bool-cases (j == k)) [
  | inl e ↦
      let same = (eq_iff j k).0 e in
      let absent = ap (λ s. count s rest) (sym same) ∙ count_missing (get j rest) u in
      rw (e, absent) (omega (arith, ap (λ s. count s d) same))
  | inr e ↦ rw (e) refl
]

Sums-step :
    (lib : Library) (j : String) (n : ℕ) (rest d : Dict)
    → is_missing (get j rest) ≡ true
    → is_counts d ≡ true
    → let added = put j (int (pos (count j d + n))) d in
      Sums rest added (add_entries lib rest added).0 (add_entries lib rest added).1
      → let r = add_entries lib (field j (int (pos n)) rest) d in
        Sums (field j (int (pos n)) rest) d r.0 r.1
unfolding add_entries int_in get
Sums-step lib j n rest d u h s =
    rw (add_entries, int_in, plus_at_lem lib j n d h)
      (record {
        done = s.done;
        counts = s.counts;
        count_lem =
            λ k. s.count_lem k ∙ rw (count-put j k (count j d + n) d) (count_field j n rest d u k);
      })

pub add_entries_lem :
    (lib : Library) (usage d : Dict)
    → is_counts usage ≡ true
    → is_counts d ≡ true
    → Sums usage d (add_entries lib usage d).0 (add_entries lib usage d).1
unfolding add_entries get
add_entries_lem lib end d u h = record { done = refl; counts = h; count_lem = λ k. omega arith }
add_entries_lem lib (field j v rest) d u h =
    let (n, f) = count_form v (ground (arith, u)) in
    let added = put j (int (pos (count j d + n))) d in
    let rest_lem = add_entries_lem lib rest added (ground (arith, u)) (is_counts-put j _ d h) in
    subst
      (λ x.
        Sums (field j x rest) d (add_entries lib (field j x rest) d).0
          (add_entries lib (field j x rest) d).1)
      (sym f) (Sums-step lib j n rest d (ground (arith, u)) h rest_lem)
