-- ===== src/UpdateStore/Spec.antt =====
-- What a queue of updates is to its clients: a stage for each id, with the failure that is kept for
-- it, and the moves between the stages. The abstract view of
-- meilisearch-http/src/index_controller/update_store.rs; models no code of its own.
use transplant.Base.{ℕ, ◌≡◌, ◌≢◌, refl, sym, ◌∙◌, Option, some, set, arith}
use transplant.Updates.{Pending, Processed, Aborted, Failed}

pub data Stage (M N : Type 0) : Type 0 where
  vacant : Stage M N
  waiting : Pending M → Stage M N
  completed : Processed M N → Stage M N
  dropped : Aborted M → Stage M N

pub record Entry (M N E : Type 0) : Type 0 where
  pub stage : Stage M N
  pub failure : Option (Failed M E)

-- The update has its result, or was aborted.
abbrev pub IsFinal : {M N : Type 0} → Stage M N → Type 0
IsFinal (completed d) = Unit {0}
IsFinal (dropped d) = Unit {0}
IsFinal (waiting p) = ⊥
IsFinal vacant = ⊥

IsFinal-cases :
    {M N : Type 0} (s : Stage M N) → IsFinal s → (s ≢ vacant) × ((p : Pending M) → s ≢ waiting p)
IsFinal-cases (completed d) h = (λ e. cc e, λ p e. cc e)
IsFinal-cases (dropped d) h = (λ e. cc e, λ p e. cc e)
IsFinal-cases (waiting p) h = absurd h
IsFinal-cases vacant h = absurd h

module _ {M N E : Type 0} where
  abbrev pub at_stage : Entry M N E → Stage M N → Entry M N E
  at_stage e s = record e { stage = s }

module _ (M N E : Type 0) where
  abbrev pub Spec : Type 0
  Spec = ℕ → Entry M N E

  -- An update enters under an id that is vacant; one that waits is completed, or fails, which leaves
  -- its id vacant, or is dropped.
  pub data Move : Spec → Spec → Type 0 where
    enter :
        (a : Spec) (p : Pending M)
        → (a p.update_id).stage ≡ vacant
        → Move a (set a p.update_id (at_stage (a p.update_id) (waiting p)))
    complete :
        (a : Spec) (k : ℕ) (p : Pending M) (d : Processed M N)
        → (a k).stage ≡ waiting p
        → Move a (set a k (at_stage (a k) (completed d)))
    fail :
        (a : Spec) (k : ℕ) (p : Pending M) (f : Failed M E)
        → (a k).stage ≡ waiting p
        → Move a (set a k (record { stage = vacant; failure = some f }))
    drop :
        (a : Spec) (k : ℕ) (p : Pending M) (d : Aborted M)
        → (a k).stage ≡ waiting p
        → d.from ≡ p
        → Move a (set a k (at_stage (a k) (dropped d)))

  pub data Moves (a : Spec) : Spec → Type 0 where
    stay : Moves a a
    also : {b c : Spec} → Moves a b → Move b c → Moves a c

  pub append-Moves : {a b c : Spec} → Moves a b → Moves b c → Moves a c
  append-Moves m stay = m
  append-Moves m (also r s) = also (append-Moves m r) s

  -- What is completed or dropped stays so.
  Move-final :
      {a b : Spec} (k : ℕ)
      → Move a b
      → (a k).stage ≢ vacant
      → ((p : Pending M) → (a k).stage ≢ waiting p)
      → (b k).stage ≡ (a k).stage
  Move-final k (enter a p h) full still = ground (arith, h, full, still)
  Move-final k (complete a j p d h) full still = ground (arith, h, full, still p)
  Move-final k (fail a j p f h) full still = ground (arith, h, full, still p)
  Move-final k (drop a j p d h e) full still = ground (arith, h, full, still p)

  pub Moves-final :
      {a b : Spec} (k : ℕ) → Moves a b → IsFinal (a k).stage → (b k).stage ≡ (a k).stage
  Moves-final k stay h = refl
  Moves-final {a} k (also r s) h =
      let same = Moves-final k r h in
      let (full, still) = IsFinal-cases (a k).stage h in
      Move-final k s (λ e. full (sym same ∙ e)) (λ p e. still p (sym same ∙ e)) ∙ same
