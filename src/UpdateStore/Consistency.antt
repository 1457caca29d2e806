-- ===== src/UpdateStore/Consistency.antt =====
-- Every call keeps a store consistent, whichever of its calls of the store fail,
-- meilisearch-http/src/index_controller/update_store.rs.
use transplant.Base.{ℕ, ◌≡◌, ◌≢◌, refl, Option, none, some, String, arith, inl, inr}
use transplant.Heed.{Heed}
use transplant.Heed.Keys.{nat_key}
use transplant.Heed.Laws.{first-get, first-put_later}
use transplant.Updates.{Pending, Uuid, DateTime}
use transplant.UpdateStore.{Faults, Tables, Store, register_update}
use transplant.UpdateStore.Register.{
  enqueue, next_id, registered, register_update-env, IsUsed, HasRoom, lt-next_id,
}
use transplant.UpdateStore.Invariant.{IsConsistent, KeepsFirst, KeepsFirst-IsFirst}
use transplant.UpdateStore.Preserve.{enqueue-WellFormed}

none_of : {A : Type 0} (o : Option A) → ¬ (o ≢ none) → o ≡ none
none_of none h = refl
none_of (some a) h = absurd (h (λ e. cc e))

module _ (heed : Heed nat_key) {M N E : Type 0} where
  open heed use {get, first}

  module _ (t : Tables heed M N E) (room : HasRoom heed t) where
    unused : (k : ℕ) → next_id heed t ≡ k → ¬ IsUsed heed t k
    unused k e used = omega (arith, lt-next_id heed t room k used)

    -- The id that is given next is in none of the three tables that were looked at.
    pub next_id-unused :
        (get t.pending_meta (next_id heed t) ≡ none)
        × (get t.processed_meta (next_id heed t) ≡ none)
        × (get t.aborted_meta (next_id heed t) ≡ none)
    next_id-unused = (
      none_of (get t.pending_meta k) (λ h. unused k refl (inl h)),
      none_of (get t.processed_meta k) (λ h. unused k refl (inr (inl h))),
      none_of (get t.aborted_meta k) (λ h. unused k refl (inr (inr h))),
    )
      where
        k : ℕ
        k = next_id heed t

    KeepsFirst-enqueue :
        (p : Pending M) (content : String)
        → p.update_id ≡ next_id heed t
        → KeepsFirst heed t (enqueue heed t p content)
    KeepsFirst-enqueue p content e k q f =
        let found = first-get nat_key heed t.pending_meta f in
        let above = lt-next_id heed t room k (inl (λ n. cc (found, n))) in
        first-put_later nat_key heed t.pending_meta k p.update_id q p f (ground arith)

  module _ (fault : Faults) (meta : M) (content : String) (u : Uuid) (now : DateTime)
      (s : Store heed M N E) where
    pub register_update-KeepsFirst :
        HasRoom heed s.env
        → KeepsFirst heed s.env (register_update heed fault meta content u now s).1.env
    register_update-KeepsFirst room k q f =
        elim ((register_update-env heed fault meta content u now s).1) [
          | inl e ↦ rw e f
          | inr e ↦
              let p = registered heed fault meta content u now s in
              rw e (KeepsFirst-enqueue s.env room p content refl k q f)
        ]

    -- Registering an update keeps the store consistent, also when it fails or panics.
    pub register_update-IsConsistent :
        HasRoom heed s.env
        → IsConsistent heed s
        → IsConsistent heed (register_update heed fault meta content u now s).1
    register_update-IsConsistent room c =
        let s' = (register_update heed fault meta content u now s).1 in
        let (same, tables) = register_update-env heed fault meta content u now s in
        let p = registered heed fault meta content u now s in
        let (_, not_processed, not_aborted) = next_id-unused s.env room in
        record {
          tables = elim tables [
            | inl e ↦ rw e c.tables
            | inr e ↦
                rw e (enqueue-WellFormed heed s.env p content not_processed not_aborted c.tables)
          ];
          current_first = rw same (
              KeepsFirst-IsFirst heed s.env s'.env s.processing (register_update-KeepsFirst room)
                c.current_first);
        }
