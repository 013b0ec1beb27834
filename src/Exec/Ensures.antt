-- ===== src/Exec/Ensures.antt =====
-- What holds of the value of an action whenever it returns one, by a rule for each way to build
-- the action.
use claude_agent_api.Common.{◌≡◌}
use claude_agent_api.Exec.{
  Exn, Outcome, ok, raise, Exec, pure, throw, lift, handle, catch, continue, ◌>>=◌,
}

abbrev pub OkIs : {A : Type 0} → (A → Type 0) → Outcome A → Type 0
OkIs P (ok a) = P a
OkIs P (raise e) = Unit

pub record Ensures {W A : Type 0} (P : A → Type 0) (m : Exec W A) : Type 0 where
  pub at : (w : W) → OkIs P (m w).0

module _ {W A : Type 0} {P : A → Type 0} where
  pub Ensures-pure : (a : A) → P a → Ensures {W = W} P (pure a)
  unfolding pure
  Ensures-pure a h = record { at = λ w. h }

  pub Ensures-throw : (e : Exn) → Ensures {W = W} P (throw e)
  unfolding throw
  Ensures-throw e = record { at = λ w. tt }

  pub Ensures-lift : (r : Outcome A) → OkIs P r → Ensures {W = W} P (lift r)
  unfolding lift
  Ensures-lift r h = record { at = λ w. h }

  handle-ok :
      (h : Exn → Exec W A) (p : Outcome A × W)
      → OkIs P p.0
      → ((e : Exn) → Ensures P (h e))
      → OkIs P (handle h p).0
  handle-ok h (ok a, w) here there = here
  handle-ok h (raise e, w) here there = (there e).at w

  pub Ensures-catch :
      (m : Exec W A) (h : Exn → Exec W A)
      → Ensures P m
      → ((e : Exn) → Ensures P (h e))
      → Ensures P (catch m h)
  unfolding catch
  Ensures-catch m h here there = record { at = λ w. handle-ok h (m w) (here.at w) there }

module _ {W A B : Type 0} {Q : A → Type 0} {P : B → Type 0} where
  continue-ok :
      (f : A → Exec W B) (p : Outcome A × W)
      → OkIs Q p.0
      → ((a : A) → Q a → Ensures P (f a))
      → OkIs P (continue f p).0
  continue-ok f (ok a, w) here there = (there a here).at w
  continue-ok f (raise e, w) here there = tt

  -- The rest may rely on what the first action ensures.
  pub Ensures-bind_of :
      (m : Exec W A) (f : A → Exec W B)
      → Ensures Q m
      → ((a : A) → Q a → Ensures P (f a))
      → Ensures P (m >>= f)
  unfolding ◌>>=◌
  Ensures-bind_of m f here there = record { at = λ w. continue-ok f (m w) (here.at w) there }

any-ok : {A : Type 0} (r : Outcome A) → OkIs (λ _. Unit) r
any-ok (ok a) = tt
any-ok (raise e) = tt

pub Ensures-any : {W A : Type 0} (m : Exec W A) → Ensures (λ _. Unit {0}) m
Ensures-any m = record { at = λ w. any-ok (m w).0 }

module _ {W A B : Type 0} {P : B → Type 0} where
  pub Ensures-bind :
      (m : Exec W A) (f : A → Exec W B) → ((a : A) → Ensures P (f a)) → Ensures P (m >>= f)
  Ensures-bind m f there = Ensures-bind_of m f (Ensures-any m) (λ a _. there a)

pub ruleset ensures_rules = (Ensures-pure, Ensures-throw, Ensures-catch, Ensures-bind)

-- The value of a run, by its equation.
pub Ensures-value :
    {W A : Type 0} {P : A → Type 0} {m : Exec W A} {w w' : W} {a : A}
    → Ensures P m
    → m w ≡ (ok a, w')
    → P a
Ensures-value {P} {m} {w} h e = rw e at (h.at w)
