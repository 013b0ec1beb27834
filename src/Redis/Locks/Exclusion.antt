-- ===== src/Redis/Locks/Exclusion.antt =====
-- Who holds the lock.
use claude_agent_api.Common.{
  ◌⊎◌, Bool-cases, eq_iff, ◌==◌, ℕ, ◌<◌, ◌∙◌, String, ◌≡◌, ◌≢◌, refl, ap, sym, Bool, true, false,
  Option, none, some, arith, ◌=ℕ◌, if◌then◌else◌, Option-cases, inl, inr,
}
use claude_agent_api.Exec.{ok, pure, ◌>>=◌}
use claude_agent_api.Redis.Client.{Codec, RedisClient}
use claude_agent_api.Redis.Adapter.{lock_name, acquire_lock, release_lock}
use claude_agent_api.Redis.Locks.{
  LockLaws, System, Step, Reach, acquire, release, lapse, elsewhere, start, later, taken, update,
}

holds_or_not : (found : Option String) (v : String) → (found ≡ some v) ⊎ (found ≢ some v)
holds_or_not none v = inr (λ e. absurd (ground (arith, e)))
holds_or_not (some s) v = elim (Bool-cases (s == v)) [
  | inl same ↦ inl (ap some ((eq_iff s v).0 same))
  | inr other ↦ inr (λ e. ground (arith, e, other, eq_iff s v))
]

module _ {W B : Type 0} (codec : Codec B) (client : RedisClient W B)
    {text_at : W → String → Option String} (laws : LockLaws codec client text_at) (key : String)
    (ttl : ℕ) (pos : 0 < ttl) where
  abbrev stored : W → Option String
  stored w = text_at w (lock_name key)

  acquire_lock-free :
      (v : String) (w : W)
      → stored w ≡ none
      → let (o, w') = acquire_lock codec client (pure v) key ttl none w in
        (o ≡ ok (some v)) × (stored w' ≡ some v)
  unfolding acquire_lock ◌>>=◌
  acquire_lock-free v w free =
      let (answered, now) = laws.nx_free (lock_name key) v ttl w pos free in rw answered (refl, now)

  acquire_lock-taken :
      (v u : String) (w : W)
      → stored w ≡ some u
      → let (o, w') = acquire_lock codec client (pure v) key ttl none w in
        (o ≡ ok none) × (stored w' ≡ some u)
  unfolding acquire_lock ◌>>=◌
  acquire_lock-taken v u w full =
      let (answered, now) = laws.nx_taken (lock_name key) v u ttl w full in rw answered (refl, now)

  -- A release with the stored value frees the lock and answers True; a release with another
  -- value, such as that of a lock that has lapsed, answers False and leaves what is stored.
  pub release_lock_lem :
      (v : String) (w : W)
      → let (o, w') = release_lock codec client key v w in
        ((stored w ≡ some v) × (o ≡ ok true) × (stored w' ≡ none))
        ⊎ ((stored w ≢ some v) × (o ≡ ok false) × (stored w' ≡ stored w))
  unfolding release_lock ◌>>=◌
  release_lock_lem v w = elim (holds_or_not (stored w) v) [
    | inl own ↦
        let (answered, now) = laws.script_own (lock_name key) v w own in
        rw answered (inl (own, refl, now))
    | inr foreign ↦
        let (answered, now) = laws.script_other (lock_name key) v w foreign in
        rw answered (inr (foreign, refl, now))
  ]

  -- No two clients hold the lock with the same value; and, while no lock has lapsed, every value
  -- held is the one that is stored.
  record Inv (may_lapse : Bool) (s : System codec client text_at) : Type 0 where
    unique : (i j : ℕ) (v : String) → s.held i ≡ some v → s.held j ≡ some v → i ≡ j
    owns : may_lapse ≡ false → (i : ℕ) (v : String) → s.held i ≡ some v → stored s.world ≡ some v

  abbrev Sets :
      System codec client text_at → System codec client text_at → ℕ → Option String → Type 0
  Sets s t i x = (j : ℕ) → t.held j ≡ (if i =ℕ j then x else s.held j)

  module _ {may_lapse : Bool} {s t : System codec client text_at} (inv : Inv may_lapse s) where
    taken-Inv :
        (i : ℕ) (v : String)
        → ((j : ℕ) → s.held j ≢ some v)
        → Sets s t i (some v)
        → (may_lapse ≡ false → stored s.world ≡ none)
        → stored t.world ≡ some v
        → Inv may_lapse t
    taken-Inv i v fresh holds free now = record {
      unique = λ a b x p q. ground (arith, holds a, holds b, fresh a, fresh b, inv.unique a b x);
      owns = λ never a x p. ground (arith, holds a, inv.owns never a x, free never);
    }

    dropped-Inv :
        (i : ℕ)
        → Sets s t i none
        → (may_lapse ≡ false
            → (a : ℕ) (x : String) → (i =ℕ a) ≡ false
            → s.held a ≡ some x
            → stored t.world ≡ some x)
        → Inv may_lapse t
    dropped-Inv i holds keep = record {
      unique = λ a b x p q. ground (arith, holds a, holds b, inv.unique a b x);
      owns = λ never a x p. ground (arith, holds a, keep never a x);
    }

    same-Inv :
        t.held ≡ s.held → (may_lapse ≡ false → stored t.world ≡ stored s.world) → Inv may_lapse t
    same-Inv held same = record {
      unique = λ a b x p q.
          inv.unique a b x (sym (ap (λ f. f a) held) ∙ p) (sym (ap (λ f. f b) held) ∙ q);
      owns = λ never a x p. same never ∙ inv.owns never a x (sym (ap (λ f. f a) held) ∙ p);
    }

  Step-Inv :
      {may_lapse : Bool} {s t : System codec client text_at}
      → Step codec client text_at key ttl may_lapse s t
      → Inv may_lapse s
      → Inv may_lapse t
  Step-Inv {may_lapse} {s} {t} (acquire i v idle fresh world held) inv =
      elim (Option-cases (stored s.world)) [
        | inl free ↦
            let (o, now) = acquire_lock-free v s.world free in
            taken-Inv inv i v fresh
              (λ j.
                ap (λ f. f j) held
                ∙ ap (λ a. update codec client text_at s.held i (taken codec client text_at a) j) o)
              (λ _. free) (ap stored world ∙ now)
        | inr (u, full) ↦
            let (o, now) = acquire_lock-taken v u s.world full in
            dropped-Inv inv i
              (λ j.
                ap (λ f. f j) held
                ∙ ap (λ a. update codec client text_at s.held i (taken codec client text_at a) j) o)
              (λ never a x other mine. ap stored world ∙ now ∙ sym full ∙ inv.owns never a x mine)
      ]
  Step-Inv {may_lapse} {s} {t} (release i v mine world held) inv =
      dropped-Inv inv i (λ j. ap (λ f. f j) held)
        (λ never a x other theirs. absurd (
          ground (
            arith,
            other,
            inv.unique i a v mine,
            inv.owns never a x theirs,
            inv.owns never i v mine,
            theirs,
          )))
  Step-Inv {may_lapse} {s} {t} (lapse may gone held) inv =
      same-Inv inv held (λ never. absurd (ground (arith, may, never)))
  Step-Inv {may_lapse} {s} {t} (elsewhere same held) inv = same-Inv inv held (λ _. same)

  Reach-Inv :
      {may_lapse : Bool} {s t : System codec client text_at}
      → Inv may_lapse s
      → Reach codec client text_at key ttl may_lapse s t
      → Inv may_lapse t
  Reach-Inv inv start = inv
  Reach-Inv inv (later r st) = Step-Inv st (Reach-Inv inv r)

  -- From a state in which nobody holds the lock, through any calls of any clients that draw fresh
  -- values: if no lock has lapsed, no two clients hold the lock together; and even if locks lapse,
  -- two clients never hold it with the value that is stored.
  pub mutual_exclusion :
      {may_lapse : Bool} {s t : System codec client text_at} (i j : ℕ) (v u : String)
      → ((n : ℕ) → s.held n ≡ none)
      → Reach codec client text_at key ttl may_lapse s t
      → t.held i ≡ some v
      → t.held j ≡ some u
      → (may_lapse ≡ false) ⊎ ((stored t.world ≡ some v) × (stored t.world ≡ some u))
      → i ≡ j
  mutual_exclusion i j v u idle r p q when =
      let inv =
        Reach-Inv
          (record {
            unique = λ a b x m n. absurd (ground (arith, idle a, m));
            owns = λ never a x m. absurd (ground (arith, idle a, m));
          })
          r in
      elim when [
        | inl never ↦ ground (arith, inv.owns never i v p, inv.owns never j u q, inv.unique i j v p)
        | inr (e, f) ↦ ground (arith, e, f, inv.unique i j v p)
      ]
