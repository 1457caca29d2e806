-- ===== src/Base/Keeps.antt =====
-- How a relation between the state before and after goes through a sequence of calls.
use mathlib.Core.Path.{◌≡◌, refl}
use transplant.Base.Outcome.{Outcome, ok, err, panicked}
use transplant.Base.Exec.{Exec, ◌>>=◌, continue, pure}
use native.Mathlib.Omega.{arith}

-- A relation that every step and every sequence of steps keeps.
pub record Order {S : Type 0} (R : S → S → Type 0) : Type 0 where
  pub same : (s : S) → R s s
  pub next : (s s' s'' : S) → R s s' → R s' s'' → R s s''

module _ {S E A B : Type 0} {R : S → S → Type 0} (order : Order R) where
  -- Whatever its parts answer, a sequence keeps what they keep.
  pub bind-keeps :
      (m : Exec S E A) (f : A → Exec S E B)
      → ((s : S) → R s (m s).1)
      → ((a : A) (s : S) → (m s).0 ≡ ok a → R (m s).1 (f a (m s).1).1)
      → (s : S) → R s ((m >>= f) s).1
  bind-keeps m f first second s =
      order.next s (m s).1 ((m >>= f) s).1 (first s) (after (m s).0 (m s).1 (λ a h. second a s h))
    where
      after :
          (r : Outcome E A) (s' : S)
          → ((a : A) → r ≡ ok a → R s' (f a s').1)
          → R s' (continue r f s').1
      after (ok a) s' g = g a refl
      after (err e) s' g = order.same s'
      after (panicked p) s' g = order.same s'

  -- A sequence that returns an error is, with it, in a relation that its last part is in when it
  -- returns one, if what its first part keeps is enough for that relation and can come before it.
  pub bind-err-leads :
      {Q : E → S → S → Type 0}
      → ((e : E) (s s' : S) → R s s' → Q e s s')
      → ((e : E) (s s' s'' : S) → R s s' → Q e s' s'' → Q e s s'')
      → (m : Exec S E A) (f : A → Exec S E B) → ((s : S) → R s (m s).1)
      → ((a : A) (s : S) (e : E)
          → (m s).0 ≡ ok a
          → (f a (m s).1).0 ≡ err e
          → Q e (m s).1 (f a (m s).1).1)
      → (s : S) (e : E) → ((m >>= f) s).0 ≡ err e
      → Q e s ((m >>= f) s).1
  bind-err-leads {Q} stop lead m f first second s e h =
      after (m s).0 (m s).1 (first s) (λ a g. second a s e g) h
    where
      after :
          (r : Outcome E A) (s' : S)
          → R s s'
          → ((a : A) → r ≡ ok a → (f a s').0 ≡ err e → Q e s' (f a s').1)
          → (continue r f s').0 ≡ err e
          → Q e s (continue r f s').1
      after (ok a) s' k g h = lead e s s' (f a s').1 k (g a refl h)
      after (err x) s' k g h = stop e s s' k
      after (panicked p) s' k g h = stop e s s' k

module _ {S E A B : Type 0} where
  -- When a call whose result is only converted answers an error, the call itself did.
  pub err-convert :
      (m : Exec S E A) (f : A → B) (s : S) {e : E}
      → ((m >>= λ a. pure (f a)) s).0 ≡ err e
      → ((m s).0 ≡ err e) × (((m >>= λ a. pure (f a)) s).1 ≡ (m s).1)
  err-convert m f s {e} h = convert (m s).0 (m s).1 h
    where
      convert :
          (r : Outcome E A) (s' : S)
          → (continue r (λ a. pure (f a)) s').0 ≡ err e
          → (r ≡ err e) × ((continue r (λ a. pure (f a)) s').1 ≡ s')
      convert (ok a) s' h = cc
      convert (err x) s' h = (ground (arith, h), refl)
      convert (panicked p) s' h = cc
