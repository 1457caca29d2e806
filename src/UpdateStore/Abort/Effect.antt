-- ===== src/UpdateStore/Abort/Effect.antt =====
-- What `abort_update` and `abort_pendings` do to a store, whichever calls fail.
use transplant.Base.{
  ℕ, ◌≡◌, refl, ap, ◌∙◌, false, none, some, List, [], ◌∷◌, drop, arith, ◌⊎◌, inl, inr, String,
}
use transplant.Base.Outcome.{Outcome-cases, ok, err, panicked}
use transplant.Base.Exec.{attempt, attempt-ok, bind-ok, pure, ◌>>◌, ◌>>=◌}
use transplant.Heed.{Heed}
use transplant.Heed.Keys.{nat_key}
use transplant.Updates.{Pending, Aborted, DateTime, abort}
use transplant.UpdateStore.{
  Error, Faults, Tables, Store, commit_tables, read_pending, put_aborted_at, delete_meta_at,
  delete_pending_at,
}
use transplant.UpdateStore.Abort.{
  is_first, move_aborted, abort_update, abort_pendings, commit_aborted, collect, move_all,
}

abbrev pub aborted_entries :
    {M : Type 0} → (ℕ → DateTime) → List (ℕ × Pending M) → List (ℕ × Aborted M)
aborted_entries now [] = []
aborted_entries now ((id, p) ∷ l) = (id, abort p (now id)) ∷ aborted_entries now l

module _ (heed : Heed nat_key) {M N E : Type 0} where
  open heed use {get, first, iter}

  abbrev pub move_each : List (ℕ × Aborted M) → Tables heed M N E → Tables heed M N E
  move_each [] t = t
  move_each (e ∷ l) t = move_each l (move_aborted heed t e)

  module _ (fault : Faults) (now : DateTime) (id : ℕ) (s : Store heed M N E) where
    -- An update that is aborted was pending, and was not the first pending one.
    pub abort_update-some :
        {a : Aborted M}
        → (abort_update heed fault now id s).0 ≡ ok (some a)
        → (get s.env.pending_meta id ≡ some a.from)
          × (is_first (first s.env.pending_meta) id ≡ false)
          × ((abort_update heed fault now id s).1
              ≡ record s { env = move_aborted heed s.env (id, a) })
    unfolding abort_update
    abort_update-some h = ground arith

    pub abort_update-pending :
        (p : Pending M)
        → get s.env.pending_meta id ≡ some p
        → ((abort_update heed fault now id s).1 ≡ s)
          ⊎ ((is_first (first s.env.pending_meta) id ≡ false)
              × ((abort_update heed fault now id s).1
                  ≡ record s { env = move_aborted heed s.env (id, abort p now) }))
    unfolding abort_update
    abort_update-pending p h = ground arith

    pub abort_update-absent :
        get s.env.pending_meta id ≡ none → (abort_update heed fault now id s).1 ≡ s
    unfolding abort_update
    abort_update-absent h = ground arith

    pub processing-abort_update : (abort_update heed fault now id s).1.processing ≡ s.processing
    unfolding abort_update
    processing-abort_update = ground arith

    pub abort_update-none :
        (abort_update heed fault now id s).0 ≡ ok none → (abort_update heed fault now id s).1 ≡ s
    unfolding abort_update
    abort_update-none h = ground arith

    pub abort_update-err :
        {e : Error}
        → (abort_update heed fault now id s).0 ≡ err e
        → (abort_update heed fault now id s).1 ≡ s
    unfolding abort_update
    abort_update-err h = ground arith

  module _ (fault : Faults) (now : ℕ → DateTime) (s : Store heed M N E) where
    pub collect-same :
        (l : List (ℕ × Pending M)) → (collect heed {N = N} {E = E} fault now l s).1 ≡ s
    unfolding collect
    collect-same [] = refl
    collect-same ((id, p) ∷ l) = ground (arith, collect-same l)

    pub collect-ok :
        (l : List (ℕ × Pending M)) {r : List (ℕ × Aborted M)}
        → (collect heed {N = N} {E = E} fault now l s).0 ≡ ok r
        → r ≡ aborted_entries now l
    unfolding collect
    collect-ok [] h = ground arith
    collect-ok ((id, p) ∷ l) h =
        let rest = collect heed {N = N} {E = E} fault now l in
        let add = λ (r : List (ℕ × Aborted M)).
          pure {S = Store heed M N E} {E = Error} ((id, abort p (now id)) ∷ r) in
        let h₁ = rw (attempt-ok (fault (read_pending id)) (rest >>= add) s h) at h in
        let (r, e, same) = bind-ok rest add s h₁ in ground (arith, collect-ok l e)

    pub move_all-same :
        (l : List (ℕ × Aborted M)) (t : Tables heed M N E) → (move_all heed fault l t s).1 ≡ s
    unfolding move_all
    move_all-same [] t = refl
    move_all-same ((id, a) ∷ l) t = ground (arith, move_all-same l (move_aborted heed t (id, a)))

    pub move_all-ok :
        (l : List (ℕ × Aborted M)) (t : Tables heed M N E) {t' : Tables heed M N E}
        → (move_all heed fault l t s).0 ≡ ok t'
        → t' ≡ move_each l t
    unfolding move_all
    move_all-ok [] t h = ground arith
    move_all-ok ((id, a) ∷ l) t h =
        let t₁ = move_aborted heed t (id, a) in
        let rest = move_all heed fault l t₁ in
        let after_meta = attempt (fault (delete_pending_at id)) >> rest in
        let after_put = attempt (fault (delete_meta_at id)) >> after_meta in
        let first_step = attempt-ok (fault (put_aborted_at id)) after_put s h in
        let h₁ = rw first_step at h in
        let h₂ = rw (attempt-ok (fault (delete_meta_at id)) after_meta s h₁) at h₁ in
        let h₃ = rw (attempt-ok (fault (delete_pending_at id)) rest s h₂) at h₂ in
        move_all-ok l t₁ h₃

    pub abort_pendings-err :
        {e : Error}
        → (abort_pendings heed fault now s).0 ≡ err e
        → (abort_pendings heed fault now s).1 ≡ s
    unfolding abort_pendings commit_aborted
    abort_pendings-err h = grind (arith, collect-same, move_all-same)

    pub abort_pendings-panicked :
        {m : String}
        → (abort_pendings heed fault now s).0 ≡ panicked m
        → (abort_pendings heed fault now s).1 ≡ s
    unfolding abort_pendings commit_aborted
    abort_pendings-panicked h = grind (arith, collect-same, move_all-same)

    commit_aborted-ok :
        (l : List (ℕ × Aborted M)) (t : Tables heed M N E) {r : List (ℕ × Aborted M)}
        → (commit_aborted heed fault t l s).0 ≡ ok r
        → (r ≡ l) × ((commit_aborted heed fault t l s).1 ≡ record s { env = move_each l t })
    unfolding commit_aborted commit_tables
    commit_aborted-ok l t h =
        let rest = λ (t' : Tables heed M N E). commit_tables heed fault t' >> pure l in
        let (t', moved, same) = bind-ok (move_all heed fault l t) rest s h in
        ground (arith, move_all-ok l t moved, move_all-same l t, same)

    abort_pendings-started :
        {l : List (ℕ × Aborted M)}
        → (abort_pendings heed fault now s).0 ≡ ok l
        → abort_pendings heed fault now s
          ≡ (collect heed fault now (drop 1 (iter s.env.pending_meta))
                >>= commit_aborted heed fault s.env)
              s
    unfolding abort_pendings
    abort_pendings-started h = ground arith

    -- When aborting all pending updates returns, it returns all but the first of them, and they
    -- have been moved to the aborted table; nothing else of the store changes.
    pub abort_pendings-ok :
        {l : List (ℕ × Aborted M)}
        → (abort_pendings heed fault now s).0 ≡ ok l
        → (l ≡ aborted_entries now (drop 1 (iter s.env.pending_meta)))
          × ((abort_pendings heed fault now s).1 ≡ record s { env = move_each l s.env })
    abort_pendings-ok {l} h =
        let entries = drop 1 (iter s.env.pending_meta) in
        let rest = commit_aborted heed fault s.env in
        let started = abort_pendings-started h in
        let (r, collected, same) =
          bind-ok (collect heed fault now entries) rest s (rw started at h) in
        let whole : abort_pendings heed fault now s ≡ rest r s =
          started ∙ same ∙ ap (rest r) (collect-same entries) in
        let committed = commit_aborted-ok r s.env (rw whole at h) in
        let listed : l ≡ r = committed.0 in
        (listed ∙ collect-ok entries collected, rw (whole, listed) (committed.1))

    -- Either nothing changed, or the rows of all pending updates but the first were moved.
    pub abort_pendings-effect :
        ((abort_pendings heed fault now s).1 ≡ s)
        ⊎ ((abort_pendings heed fault now s).1 ≡ record s {
          env = move_each (aborted_entries now (drop 1 (iter s.env.pending_meta))) s.env;
        })
    abort_pendings-effect = elim (Outcome-cases (abort_pendings heed fault now s).0) [
      | inl r ↦
          let (listed, state) = abort_pendings-ok r.1 in
          inr
            (state ∙ ap (λ (l : List (ℕ × Aborted M)). record s { env = move_each l s.env }) listed)
      | inr (inl e) ↦ inl (abort_pendings-err e.1)
      | inr (inr m) ↦ inl (abort_pendings-panicked m.1)
    ]
