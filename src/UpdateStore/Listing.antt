-- ===== src/UpdateStore/Listing.antt =====
-- What `list` and `meta` return, meilisearch-http/src/index_controller/update_store.rs.
use transplant.Base.{
  ℕ, ◌≤◌, ◌≡◌, refl, sym, ap, true, Bool-cases, Option, some, List, [], ◌∷◌, ◌++◌, map, In,
  In-append_left, In-append_right, arith, Option-cases, ◌⊎◌, inl, inr, leb, ◌==◌,
}
use transplant.Base.Outcome.{ok}
use transplant.Heed.{Heed}
use transplant.Heed.Keys.{nat_key}
use transplant.Heed.Laws.{In-iter}
use transplant.Updates.{
  Pending, Processing, UpdateStatus, processing, pending, processed, aborted, failed, processing_id,
  status_id,
}
use transplant.UpdateStore.{
  Faults, no_faults, Call, Store, begin, read_pending, read_aborted, read_processed, read_failed,
}
use transplant.UpdateStore.Read.{
  list, meta, readable, waiting, differs, current, sort_statuses, insert_status, stored_meta,
}
use transplant.UpdateStore.Invariant.{WellFormed}

module _ {M N E : Type 0} where
  abbrev pub AllAbove : ℕ → List (UpdateStatus M N E) → Type 0
  AllAbove k [] = Unit
  AllAbove k (u ∷ l) = (k ≤ status_id u) × AllAbove k l

  -- In ascending order of the ids.
  abbrev pub IsSorted : List (UpdateStatus M N E) → Type 0
  IsSorted [] = Unit
  IsSorted (u ∷ l) = AllAbove (status_id u) l × IsSorted l

  AllAbove-le : (j k : ℕ) (l : List (UpdateStatus M N E)) → j ≤ k → AllAbove k l → AllAbove j l
  AllAbove-le j k [] h a = tt
  AllAbove-le j k (u ∷ l) h a = (omega arith, AllAbove-le j k l h a.1)

  AllAbove-insert :
      (k : ℕ) (u : UpdateStatus M N E) (l : List (UpdateStatus M N E))
      → k ≤ status_id u
      → AllAbove k l
      → AllAbove k (insert_status u l)
  unfolding insert_status
  AllAbove-insert k u [] h a = (h, tt)
  AllAbove-insert k u (v ∷ l) h a = elim (Bool-cases (leb (status_id u) (status_id v))) [
    | inl e ↦ rw e (h, a)
    | inr e ↦ rw e (a.0, AllAbove-insert k u l h a.1)
  ]

  IsSorted-insert :
      (u : UpdateStatus M N E) (l : List (UpdateStatus M N E))
      → IsSorted l
      → IsSorted (insert_status u l)
  unfolding insert_status
  IsSorted-insert u [] s = (tt, tt)
  IsSorted-insert u (v ∷ l) s = elim (Bool-cases (leb (status_id u) (status_id v))) [
    | inl e ↦ rw e ((ground arith, AllAbove-le (status_id u) (status_id v) l (ground arith) s.0), s)
    | inr e ↦ rw e (AllAbove-insert (status_id v) u l (ground arith) s.0, IsSorted-insert u l s.1)
  ]

  sort_statuses-IsSorted : (l : List (UpdateStatus M N E)) → IsSorted (sort_statuses l)
  unfolding sort_statuses
  sort_statuses-IsSorted [] = tt
  sort_statuses-IsSorted (u ∷ l) = IsSorted-insert u (sort_statuses l) (sort_statuses-IsSorted l)

  In-insert :
      (x u : UpdateStatus M N E) (l : List (UpdateStatus M N E))
      → (x ≡ u) ⊎ In x l
      → In x (insert_status u l)
  unfolding insert_status
  In-insert x u [] (inl e) = inl e
  In-insert x u [] (inr i) = absurd i
  In-insert x u (v ∷ l) h = elim (Bool-cases (leb (status_id u) (status_id v))) [
    | inl e ↦ rw e h
    | inr e ↦ rw e (elim h [
      | inl p ↦ inr (In-insert x u l (inl p))
      | inr i ↦ elim i [ inl p ↦ inl p | inr j ↦ inr (In-insert x u l (inr j)) ]
    ])
  ]

  In-sort :
      (x : UpdateStatus M N E) (l : List (UpdateStatus M N E)) → In x l → In x (sort_statuses l)
  unfolding sort_statuses
  In-sort x [] i = i
  In-sort x (u ∷ l) (inl e) = In-insert x u (sort_statuses l) (inl e)
  In-sort x (u ∷ l) (inr i) = In-insert x u (sort_statuses l) (inr (In-sort x l i))

In-map : {A B : Type 0} (f : A → B) (x : A) (l : List A) → In x l → In (f x) (map f l)
In-map f x [] i = i
In-map f x (y ∷ l) (inl e) = inl (ap f e)
In-map f x (y ∷ l) (inr i) = inr (In-map f x l i)

In-readable :
    {V : Type 0} (c : ℕ → Call) (k : ℕ) (v : V) (l : List (ℕ × V))
    → In (k, v) l
    → In v (readable no_faults c l)
In-readable c k v [] i = i
In-readable c k v (y ∷ l) (inl e) = inl (ap (λ p. p.1) e)
In-readable c k v (y ∷ l) (inr i) = inr (In-readable c k v l i)

In-waiting :
    {M : Type 0} (now : Option (Processing M)) (p : Pending M) (l : List (Pending M))
    → differs now p.update_id ≡ true
    → In p l
    → In p (waiting now l)
In-waiting now p [] d i = i
In-waiting now p (y ∷ l) d (inl e) = rw (sym e, d) (inl refl)
In-waiting now p (y ∷ l) d (inr i) = elim (Bool-cases (differs now y.update_id)) [
  | inl e ↦ rw e (inr (In-waiting now p l d i))
  | inr e ↦ rw e (In-waiting now p l d i)
]

module _ (heed : Heed nat_key) {M N E : Type 0} where
  open heed use {get, iter}

  -- The statuses that `list` sorts.
  unsorted : Faults → Store heed M N E → List (UpdateStatus M N E)
  unsorted fault s =
      current s.processing
      ++ (map pending (waiting s.processing (readable fault read_pending (iter s.env.pending_meta)))
          ++ (map aborted (readable fault read_aborted (iter s.env.aborted_meta))
              ++ (map processed (readable fault read_processed (iter s.env.processed_meta))
                  ++ map failed (readable fault read_failed (iter s.env.failed_meta)))))

  list-sort :
      (fault : Faults) (s : Store heed M N E) {l : List (UpdateStatus M N E)}
      → (list heed fault s).0 ≡ ok l
      → l ≡ sort_statuses (unsorted fault s)
  unfolding list begin unsorted
  list-sort fault s h = ground (arith, h)

  list-no_faults :
      (s : Store heed M N E) → (list heed no_faults s).0 ≡ ok (sort_statuses (unsorted no_faults s))
  unfolding list begin unsorted
  list-no_faults s = refl

  -- When `list` returns, whatever entries could not be read, the statuses are in ascending order
  -- of the ids.
  pub list-IsSorted :
      (fault : Faults) (s : Store heed M N E) {l : List (UpdateStatus M N E)}
      → (list heed fault s).0 ≡ ok l
      → IsSorted l
  list-IsSorted fault s h = rw (list-sort fault s h) (sort_statuses-IsSorted (unsorted fault s))

  -- What the four lookups of `meta` find, if the update is not the one being processed, is listed.
  stored-In :
      (s : Store heed M N E) (id : ℕ) {u : UpdateStatus M N E}
      → WellFormed heed s.env
      → differs s.processing id ≡ true
      → (stored_meta heed no_faults s.env id s).0 ≡ ok (some u)
      → In u (unsorted no_faults s)
  unfolding stored_meta unsorted
  stored-In s id {u} good other h =
      let now : List (UpdateStatus M N E) = current s.processing in
      let pend : List (UpdateStatus M N E) =
        map pending
          (waiting s.processing (readable no_faults read_pending (iter s.env.pending_meta))) in
      let abor : List (UpdateStatus M N E) =
        map aborted (readable no_faults read_aborted (iter s.env.aborted_meta)) in
      let proc : List (UpdateStatus M N E) =
        map processed (readable no_faults read_processed (iter s.env.processed_meta)) in
      let fail : List (UpdateStatus M N E) =
        map failed (readable no_faults read_failed (iter s.env.failed_meta)) in
      elim (Option-cases (get s.env.pending_meta id)) [
        | inr (p, e) ↦
            let st : UpdateStatus M N E = pending p in
            let found : st ≡ u = ground (arith, h, e) in
            rw (sym found) (
              In-append_right st now _ (
                In-append_left st pend _ (
                  In-map {B = UpdateStatus M N E} pending p _ (
                    In-waiting s.processing p _ (rw (good.pending_keyed id p e) other) (
                      In-readable read_pending id p _
                        (In-iter nat_key heed s.env.pending_meta id p e))))))
        | inl e₀ ↦ elim (Option-cases (get s.env.processed_meta id)) [
          | inr (p, e) ↦
              let st : UpdateStatus M N E = processed p in
              let found : st ≡ u = ground (arith, h, e₀, e) in
              rw (sym found) (
                In-append_right st now _ (
                  In-append_right st pend _ (
                    In-append_right st abor _ (
                      In-append_left st proc fail (
                        In-map {B = UpdateStatus M N E} processed p _ (
                          In-readable read_processed id p _
                            (In-iter nat_key heed s.env.processed_meta id p e)))))))
          | inl e₁ ↦ elim (Option-cases (get s.env.aborted_meta id)) [
            | inr (p, e) ↦
                let st : UpdateStatus M N E = aborted p in
                let found : st ≡ u = ground (arith, h, e₀, e₁, e) in
                rw (sym found) (
                  In-append_right st now _ (
                    In-append_right st pend _ (
                      In-append_left st abor _ (
                        In-map {B = UpdateStatus M N E} aborted p _ (
                          In-readable read_aborted id p _
                            (In-iter nat_key heed s.env.aborted_meta id p e))))))
            | inl e₂ ↦ elim (Option-cases (get s.env.failed_meta id)) [
              | inr (p, e) ↦
                  let st : UpdateStatus M N E = failed p in
                  let found : st ≡ u = ground (arith, h, e₀, e₁, e₂, e) in
                  rw (sym found) (
                    In-append_right st now _ (
                      In-append_right st pend _ (
                        In-append_right st abor _ (
                          In-append_right st proc fail (
                            In-map {B = UpdateStatus M N E} failed p _ (
                              In-readable read_failed id p _
                                (In-iter nat_key heed s.env.failed_meta id p e)))))))
              | inl e₃ ↦ absurd (ground (arith, h, e₀, e₁, e₂, e₃))
            ]
          ]
        ]
      ]

  -- When no call fails and the tables are well formed, `list` returns, and a status that `meta`
  -- finds under an id is one of those that `list` returns.
  pub meta-In-list :
      (s : Store heed M N E) (id : ℕ) {u : UpdateStatus M N E}
      → WellFormed heed s.env
      → (meta heed no_faults id s).0 ≡ ok (some u)
      → (l : List (UpdateStatus M N E)) × ((list heed no_faults s).0 ≡ ok l) × In u l
  unfolding meta begin unsorted
  meta-In-list s id {u} good h = (
    sort_statuses (unsorted no_faults s),
    list-no_faults s,
    In-sort u (unsorted no_faults s) (elim (Option-cases s.processing) [
      | inl e ↦ stored-In s id good (rw e refl) (ground (arith, h, e))
      | inr (q, e) ↦ elim (Bool-cases (processing_id q == id)) [
        | inl same ↦
            let found : processing q ≡ u = ground (arith, h, e, same) in
            rw (sym found, e) (inl refl)
        | inr other ↦ stored-In s id good (ground (arith, e, other)) (ground (arith, h, e, other))
      ]
    ]),
  )
