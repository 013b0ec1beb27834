-- ===== src/Exec.antt =====
-- Python's exceptions as values, and effectful methods as state passing over the world that the
-- cache, the database and the other services live in.
pub mod Ensures
use claude_agent_api.Common.{ℕ, String, ◌≡◌, refl, ◌⊎◌, inl, inr}

-- exceptions/base.py and exceptions/session.py, and the exceptions of Python and of the drivers
-- that the code tells apart. `redis_error` is `redis.exceptions.RedisError` with its subclasses,
-- which are not subclasses of the built-in `ConnectionError` and `TimeoutError`.
pub data Exn : Type 0 where
  api_error : String → String → ℕ → Exn
  session_not_found : String → Exn
  integrity_error operational_error : Exn
  connection_error timeout_error redis_error : Exn
  key_error value_error type_error overflow_error runtime_error : Exn
  -- any other exception, with its text
  other : String → Exn
  -- the bound on the rounds of a loop was too small
  out_of_fuel : Exn

pub data Outcome {ℓ} (A : Type ℓ) : Type ℓ where
  ok : A → Outcome A
  raise : Exn → Outcome A

pub Outcome-cases {ℓ} :
    {A : Type ℓ} (o : Outcome A) → ((a : A) × (o ≡ ok a)) ⊎ ((e : Exn) × (o ≡ raise e))
Outcome-cases (ok a) = inl (a, refl)
Outcome-cases (raise e) = inr (e, refl)

-- pure code that may raise
infixl 10 ◌>>=?◌
abbrev pub ◌>>=?◌ {ℓ κ} : {A : Type ℓ} {B : Type κ} → Outcome A → (A → Outcome B) → Outcome B
ok a >>=? f = f a
raise e >>=? f = raise e

-- A raise keeps the world that was reached before it.
abbrev pub Exec : Type 0 → Type 0 → Type 0
Exec W A = W → Outcome A × W

module _ {W A : Type 0} where
  unfoldable pub pure : A → Exec W A
  pure a w = (ok a, w)

  unfoldable pub throw : Exn → Exec W A
  throw e w = (raise e, w)

  unfoldable pub lift : Outcome A → Exec W A
  lift r w = (r, w)

  abbrev pub handle : (Exn → Exec W A) → Outcome A × W → Outcome A × W
  handle h (ok a, w) = (ok a, w)
  handle h (raise e, w) = h e w

  -- try: m except e: h(e)
  unfoldable pub catch : Exec W A → (Exn → Exec W A) → Exec W A
  catch m h w = handle h (m w)

module _ {W A B : Type 0} where
  abbrev pub continue : (A → Exec W B) → Outcome A × W → Outcome B × W
  continue f (ok a, w) = f a w
  continue f (raise e, w) = (raise e, w)

  infixl 10 ◌>>=◌ ◌>>◌
  -- opening this opens the other actions too
  unfoldable pub ◌>>=◌ : Exec W A → (A → Exec W B) → Exec W B
  unfolding pure throw lift catch
  ◌>>=◌ m f w = continue f (m w)

  abbrev pub ◌>>◌ : Exec W A → Exec W B → Exec W B
  m >> n = m >>= λ _. n
