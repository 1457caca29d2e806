-- ===== src/Base/Exec.antt =====
-- Fallible code over a state that survives an early return: what was written before a `?` or a
-- panic stays written, so the state comes back beside the outcome.
use mathlib.Core.Path.{◌≡◌, refl}
use Prim.Native.String.{String}
use mathlib.Core.Option.{Option, none, some}
use transplant.Base.Outcome.{Outcome, ok, err, panicked, joined}

abbrev pub Exec : Type 0 → Type 0 → Type 0 → Type 0
Exec S E A = S → Outcome E A × S

module _ {S E A B : Type 0} where
  abbrev pub continue : Outcome E A → (A → Exec S E B) → Exec S E B
  continue (ok a) f s = f a s
  continue (err e) f s = (err e, s)
  continue (panicked m) f s = (panicked m, s)

  infixl 5 ◌>>=◌ ◌>>◌
  abbrev pub ◌>>=◌ : Exec S E A → (A → Exec S E B) → Exec S E B
  ◌>>=◌ m f s = let (r, s') = m s in continue r f s'

  abbrev pub ◌>>◌ : Exec S E A → Exec S E B → Exec S E B
  m >> k = m >>= λ _. k

module _ {S E A : Type 0} where
  abbrev pub pure : A → Exec S E A
  pure a s = (ok a, s)

  abbrev pub lift : Outcome E A → Exec S E A
  lift r s = (r, s)

  -- `spawn_blocking(..).await`, with the error of the join converted.
  abbrev pub spawn_blocking : (String → E) → Exec S E A → Exec S E A
  spawn_blocking join_error m s = let (r, s') = m s in (joined join_error r, s')

  -- A blocking task that returns a value did not panic.
  pub spawn_blocking-ok :
      (join_error : String → E) (m : Exec S E A) (s : S) {a : A}
      → (spawn_blocking join_error m s).0 ≡ ok a
      → spawn_blocking join_error m s ≡ m s
  spawn_blocking-ok join_error m s h = same (m s).0 (m s).1 h
    where
      same :
          (r : Outcome E A) (s' : S) {a : A}
          → joined join_error r ≡ ok a
          → ◌≡◌ {A = Outcome E A × S} (joined join_error r, s') (r, s')
      same (ok a) s' h = refl
      same (err e) s' h = refl
      same (panicked m) s' h = absurd (cc h)

  abbrev pub gets : (S → A) → Exec S E A
  gets f s = (ok (f s), s)

module _ {S E : Type 0} where
  abbrev pub modify : (S → S) → Exec S E (Unit {0})
  modify f s = (ok tt, f s)

  -- A foreign call that fails, or lets the caller go on.
  abbrev pub attempt : Option E → Exec S E (Unit {0})
  attempt none s = (ok tt, s)
  attempt (some e) s = (err e, s)

module _ {S E B : Type 0} where
  -- Inversion: an attempt that is followed by an `Ok` did not fail.
  pub attempt-ok :
      (o : Option E) (m : Exec S E B) (s : S) {b : B}
      → ((attempt o >> m) s).0 ≡ ok b
      → (attempt o >> m) s ≡ m s
  attempt-ok none m s h = refl
  attempt-ok (some e) m s h = cc

module _ {S E A B : Type 0} where
  -- Inversion of a sequence that returns.
  pub bind-ok :
      (m : Exec S E A) (f : A → Exec S E B) (s : S) {b : B}
      → ((m >>= f) s).0 ≡ ok b
      → (a : A) × ((m s).0 ≡ ok a) × ((m >>= f) s ≡ f a (m s).1)
  bind-ok m f s h = continue-ok (m s).0 f (m s).1 h
    where
      continue-ok :
          (r : Outcome E A) (f : A → Exec S E B) (s : S) {b : B}
          → (continue r f s).0 ≡ ok b
          → (a : A) × (r ≡ ok a) × (continue r f s ≡ f a s)
      continue-ok (ok a) f s h = (a, refl, refl)
      continue-ok (err e) f s h = cc
      continue-ok (panicked e) f s h = cc
