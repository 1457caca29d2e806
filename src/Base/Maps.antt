-- ===== src/Base/Maps.antt =====
-- Tables of values by a number, as functions.
use Prim.Native.Nat.{ℕ}
use transplant.Base.Tests.{◌==◌, if◌then◌else◌}

abbrev pub set : {A : Type 0} → (ℕ → A) → ℕ → A → ℕ → A
set f k v j = if k == j then v else f j
