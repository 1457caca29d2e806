-- ===== src/Base/Outcome.antt =====
-- What a Rust function that returns `Result<A, E>` can do: return `Ok`, return `Err`, or panic.
use mathlib.Core.Path.{◌≡◌, refl}
use mathlib.Core.Logic.{◌⊎◌, inl, inr}
use mathlib.Core.Option.{Option, none, some}
use Prim.Native.String.{String}

pub data Outcome {ℓ} (E A : Type ℓ) : Type ℓ where
  ok : A → Outcome E A
  err : E → Outcome E A
  panicked : String → Outcome E A

module _ {ℓ} {E A B : Type ℓ} where
  infixl 5 ◌>>=◌ ◌>>◌
  -- The `?` of Rust.
  abbrev pub ◌>>=◌ : Outcome E A → (A → Outcome E B) → Outcome E B
  ok a >>= f = f a
  err e >>= f = err e
  panicked m >>= f = panicked m

  abbrev pub ◌>>◌ : Outcome E A → Outcome E B → Outcome E B
  m >> k = m >>= λ _. k

  -- Inversion of a sequence that returns, whose parts the rest of the proof takes.
  pub outcome_bind-ok :
      {P : Type ℓ} (m : Outcome E A) (f : A → Outcome E B) {b : B}
      → (m >>= f) ≡ ok b
      → ((a : A) → m ≡ ok a → f a ≡ ok b → P)
      → P
  outcome_bind-ok (ok a) f h use_parts = use_parts a refl h
  outcome_bind-ok (err e) f h use_parts = absurd (cc h)
  outcome_bind-ok (panicked m) f h use_parts = absurd (cc h)

module _ {ℓ} {E F A : Type ℓ} where
  abbrev pub map_err : (E → F) → Outcome E A → Outcome F A
  map_err f (ok a) = ok a
  map_err f (err e) = err (f e)
  map_err f (panicked m) = panicked m

module _ {ℓ} {E A : Type ℓ} where
  abbrev pub ok_or : E → Option A → Outcome E A
  ok_or e none = err e
  ok_or e (some a) = ok a

  -- What the caller of a blocking task gets: a panic of the task is its `JoinError`.
  abbrev pub joined : (String → E) → Outcome E A → Outcome E A
  joined join_error (ok a) = ok a
  joined join_error (err e) = err e
  joined join_error (panicked m) = err (join_error m)

  abbrev pub expect : String → Option A → Outcome E A
  expect m none = panicked m
  expect m (some a) = ok a

  pub Outcome-cases :
      (r : Outcome E A)
      → ((a : A) × (r ≡ ok a)) ⊎ ((e : E) × (r ≡ err e)) ⊎ ((m : String) × (r ≡ panicked m))
  Outcome-cases (ok a) = inl (a, refl)
  Outcome-cases (err e) = inr (inl (e, refl))
  Outcome-cases (panicked m) = inr (inr (m, refl))
