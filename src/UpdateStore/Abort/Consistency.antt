-- ===== src/UpdateStore/Abort/Consistency.antt =====
-- The two ways to abort keep a store consistent and leave the first pending update alone,
-- meilisearch-http/src/index_controller/update_store.rs.
use transplant.Base.{
  ℕ, ◌≡◌, refl, sym, ◌∙◌, false, Option, some, List, [], ◌∷◌, drop, In, head?, arith, Option-cases,
  inl, inr, ◌==◌,
}
use transplant.Heed.{Heed, Above, Ascending}
use transplant.Heed.Keys.{nat_key}
use transplant.Heed.Laws.{first-delete_ne, get-of-In}
use transplant.Heed.Listing.{lookup-Above', lookup-In}
use transplant.Updates.{Pending, DateTime, processing_id, abort}
use transplant.UpdateStore.{Faults, Tables, Store}
use transplant.UpdateStore.Abort.{is_first, move_aborted, abort_update, abort_pendings}
use transplant.UpdateStore.Abort.Effect.{
  move_each, aborted_entries, abort_update-pending, abort_update-absent, processing-abort_update,
  abort_pendings-effect,
}
use transplant.UpdateStore.Invariant.{WellFormed, IsConsistent, KeepsFirst, KeepsFirst-IsFirst}
use transplant.UpdateStore.Preserve.{move_aborted-WellFormed}

is_first-ne :
    {V : Type 0} (o : Option (ℕ × V)) (id k : ℕ) (p : V)
    → is_first o id ≡ false
    → o ≡ some (k, p)
    → (id == k) ≡ false
is_first-ne o id k p h f = ground arith

module _ {M : Type 0} where
  tail-Above :
      (l : List (ℕ × Pending M)) (k : ℕ) (p : Pending M)
      → Ascending nat_key l
      → head? l ≡ some (k, p)
      → Above nat_key k (drop 1 l) × Ascending nat_key (drop 1 l)
  tail-Above [] k p asc h = cc
  tail-Above ((j, q) ∷ l) k p asc h = let e : j ≡ k = cc h in (rw (← e) (asc.0), asc.1)

  pub In-drop : (e : ℕ × Pending M) (l : List (ℕ × Pending M)) → In e (drop 1 l) → In e l
  In-drop e [] i = i
  In-drop e (x ∷ l) i = inr i

  pub Ascending-drop :
      (l : List (ℕ × Pending M)) → Ascending nat_key l → Ascending nat_key (drop 1 l)
  Ascending-drop [] asc = tt
  Ascending-drop (x ∷ l) asc = asc.1

-- The keys after a key are other keys.
pub Above-ne :
    {M : Type 0} (id j : ℕ) (p : Pending M) (l : List (ℕ × Pending M))
    → Above nat_key id l
    → Ascending nat_key l
    → In {A = ℕ × Pending M} (j, p) l
    → (id == j) ≡ false
Above-ne id j p l above asc i =
    let b = lookup-Above' nat_key id j l above (lookup-In nat_key j p l asc i) in ground arith

module _ (heed : Heed nat_key) {M N E : Type 0} where
  open heed use {get, first, iter, delete, get-delete}

  module _ (fault : Faults) (now : DateTime) (id : ℕ) (s : Store heed M N E) where
    pub abort_update-KeepsFirst : KeepsFirst heed s.env (abort_update heed fault now id s).1.env
    abort_update-KeepsFirst k p f = elim (Option-cases (get s.env.pending_meta id)) [
      | inl e ↦ rw (abort_update-absent heed fault now id s e) f
      | inr e ↦ elim (abort_update-pending heed fault now id s e.0 e.1) [
        | inl same ↦ rw same f
        | inr moved ↦ rw (moved.1) (
            first-delete_ne nat_key heed s.env.pending_meta k id p f
              (is_first-ne (first s.env.pending_meta) id k p moved.0 f))
      ]
    ]

    pub abort_update-IsConsistent :
        IsConsistent heed s → IsConsistent heed (abort_update heed fault now id s).1
    abort_update-IsConsistent c = record {
      tables = elim (Option-cases (get s.env.pending_meta id)) [
        | inl e ↦ rw (abort_update-absent heed fault now id s e) c.tables
        | inr e ↦ elim (abort_update-pending heed fault now id s e.0 e.1) [
          | inl same ↦ rw same c.tables
          | inr moved ↦ rw (moved.1) (
              move_aborted-WellFormed heed s.env id (abort e.0 now) e.0
                (c.tables.pending_keyed id e.0 e.1) e.1 c.tables)
        ]
      ];
      current_first = rw (processing-abort_update heed fault now id s) (
          KeepsFirst-IsFirst heed s.env (abort_update heed fault now id s).1.env s.processing
            abort_update-KeepsFirst c.current_first);
    }

  module _ (now : ℕ → DateTime) where
    move_each-KeepsFirst :
        (l : List (ℕ × Pending M)) (t : Tables heed M N E) (k : ℕ) (p : Pending M)
        → Above nat_key k l
        → first t.pending_meta ≡ some (k, p)
        → first (move_each heed (aborted_entries now l) t).pending_meta ≡ some (k, p)
    move_each-KeepsFirst [] t k p above f = f
    move_each-KeepsFirst ((id, q) ∷ l) t k p above f =
        move_each-KeepsFirst l (move_aborted heed t (id, abort q (now id))) k p above.1
          (first-delete_ne nat_key heed t.pending_meta k id p f (ground arith))

    move_each-WellFormed :
        (l : List (ℕ × Pending M)) (t : Tables heed M N E)
        → Ascending nat_key l
        → ((id : ℕ) (p : Pending M)
            → In {A = ℕ × Pending M} (id, p) l
            → get t.pending_meta id ≡ some p)
        → WellFormed heed t
        → WellFormed heed (move_each heed (aborted_entries now l) t)
    move_each-WellFormed [] t asc has w = w
    move_each-WellFormed ((id, q) ∷ l) t asc has w =
        let found = has id q (inl refl) in
        let t' = move_aborted heed t (id, abort q (now id)) in
        move_each-WellFormed l t' asc.1
          (λ j p i.
            get-delete t.pending_meta id j ∙ rw (Above-ne id j p l asc.0 asc.1 i) (has j p (inr i)))
          (move_aborted-WellFormed heed t id (abort q (now id)) q (w.pending_keyed id q found) found
            w)

  module _ (fault : Faults) (now : ℕ → DateTime) (s : Store heed M N E) where
    pub abort_pendings-KeepsFirst : KeepsFirst heed s.env (abort_pendings heed fault now s).1.env
    abort_pendings-KeepsFirst k p f = elim (abort_pendings-effect heed fault now s) [
      | inl same ↦ rw same f
      | inr moved ↦
          let listed = sym (heed.first-iter s.env.pending_meta) ∙ f in
          let above =
            tail-Above (iter s.env.pending_meta) k p (heed.iter-Ascending s.env.pending_meta)
              listed in
          rw moved (move_each-KeepsFirst now (drop 1 (iter s.env.pending_meta)) s.env k p above.0 f)
    ]

    pub abort_pendings-IsConsistent :
        IsConsistent heed s → IsConsistent heed (abort_pendings heed fault now s).1
    abort_pendings-IsConsistent c = elim (abort_pendings-effect heed fault now s) [
      | inl same ↦ rw same c
      | inr moved ↦ record {
        tables = rw moved (
            move_each-WellFormed now (drop 1 (iter s.env.pending_meta)) s.env
              (Ascending-drop (iter s.env.pending_meta) (heed.iter-Ascending s.env.pending_meta))
              (λ id p i.
                get-of-In nat_key heed s.env.pending_meta id p
                  (In-drop (id, p) (iter s.env.pending_meta) i))
              c.tables);
        current_first = λ q h.
            abort_pendings-KeepsFirst (processing_id q) q.from (c.current_first q (rw moved at h));
      }
    ]
