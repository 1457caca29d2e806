-- ===== src/UpdateStore/Refinement.antt =====
-- The queue of meilisearch-http/src/index_controller/update_store.rs implements its abstract view: each
-- step of the system is a sequence of moves of Spec.
use transplant.Base.{
  ℕ, ◌≡◌, refl, sym, ap, ◌∙◌, subst, some, Option-cases, List, [], ◌∷◌, String, drop, In, arith,
  ◌⊎◌, inl, inr,
}
use transplant.Heed.{Heed, Ascending}
use transplant.Heed.Keys.{nat_key}
use transplant.Heed.Laws.{first-get, get-of-In}
use transplant.Updates.{Pending, Processed, Failed, Uuid, DateTime, abort}
use transplant.UpdateStore.{Faults, Tables, Store, register_update}
use transplant.UpdateStore.Register.{registered, register_update-env, HasRoom}
use transplant.UpdateStore.Abort.{move_aborted, abort_update, abort_pendings}
use transplant.UpdateStore.Abort.Effect.{
  move_each, aborted_entries, abort_update-pending, abort_update-absent, abort_pendings-effect,
}
use transplant.UpdateStore.Abort.Consistency.{Above-ne, Ascending-drop, In-drop}
use transplant.UpdateStore.Process.{InFlight, finish}
use transplant.UpdateStore.Process.Effect.{env-take_first}
use transplant.UpdateStore.Invariant.{WellFormed, IsConsistent}
use transplant.UpdateStore.Consistency.{next_id-unused}
use transplant.UpdateStore.Preserve.{complete, move_aborted-WellFormed}
use transplant.UpdateStore.System.{System, Step, Reach, IsSound, Reach-IsSound}
use transplant.UpdateStore.Spec.{
  vacant, Move, Moves, stay, also, append-Moves, Moves-final, IsFinal,
}
use transplant.UpdateStore.Stages.{
  view, view-pending, view-enqueue, view-move_aborted, view-complete_ok, view-complete_err,
}

module _ (heed : Heed nat_key) {M N E : Type 0} where
  open heed use {get, first, get-put, get-delete}

  abbrev View : Tables heed M N E → Tables heed M N E → Type 0
  View t t' = Moves M N E (view heed t) (view heed t')

  same-View : (t t' : Tables heed M N E) → t' ≡ t → View t t'
  same-View t t' e = subst (λ x. View t x) (sym e) stay

  drop-View :
      (t : Tables heed M N E) (k : ℕ) (p : Pending M) (now : DateTime)
      → WellFormed heed t
      → get t.pending_meta k ≡ some p
      → View t (move_aborted heed t (k, abort p now))
  drop-View t k p now w h =
      subst (λ v. Moves M N E (view heed t) v)
        (sym (view-move_aborted heed t k p (abort p now) w h))
        (also stay (Move.drop (view heed t) k p (abort p now) (view-pending heed t k p w h) refl))

  drop_each-View :
      (now : ℕ → DateTime) (l : List (ℕ × Pending M)) (t : Tables heed M N E)
      → Ascending nat_key l
      → ((id : ℕ) (p : Pending M)
          → In {A = ℕ × Pending M} (id, p) l
          → get t.pending_meta id ≡ some p)
      → WellFormed heed t
      → View t (move_each heed (aborted_entries now l) t)
  drop_each-View now [] t asc has w = stay
  drop_each-View now ((id, q) ∷ l) t asc has w =
      let found = has id q (inl refl) in
      let t' = move_aborted heed t (id, abort q (now id)) in
      append-Moves M N E (drop-View t id q (now id) w found) (
        drop_each-View now l t' asc.1
          (λ j p i.
            get-delete t.pending_meta id j ∙ rw (Above-ne id j p l asc.0 asc.1 i) (has j p (inr i)))
          (move_aborted-WellFormed heed t id (abort q (now id)) q (w.pending_keyed id q found) found
            w))

  register-View :
      (fault : Faults) (meta : M) (content : String) (u : Uuid) (now : DateTime)
      (s : Store heed M N E)
      → HasRoom heed s.env
      → View s.env (register_update heed fault meta content u now s).1.env
  register-View fault meta content u now s room =
      elim (register_update-env heed fault meta content u now s).1 [
        | inl same ↦ same-View s.env _ same
        | inr queued ↦
            let p = registered heed fault meta content u now s in
            let free : (view heed s.env p.update_id).stage ≡ vacant =
              ground (arith, next_id-unused heed s.env room) in
            subst (λ v. Moves M N E (view heed s.env) v)
              (sym (ap (view heed) queued ∙ view-enqueue heed s.env p content free))
              (also stay (Move.enter (view heed s.env) p free))
      ]

  abort-View :
      (fault : Faults) (now : DateTime) (id : ℕ) (s : Store heed M N E)
      → IsConsistent heed s
      → View s.env (abort_update heed fault now id s).1.env
  abort-View fault now id s c = elim (Option-cases (get s.env.pending_meta id)) [
    | inl e ↦
        same-View s.env _
          (ap (λ (x : Store heed M N E). x.env) (abort_update-absent heed fault now id s e))
    | inr (p, e) ↦ elim (abort_update-pending heed fault now id s p e) [
      | inl same ↦ same-View s.env _ (ap (λ (x : Store heed M N E). x.env) same)
      | inr (later, moved) ↦
          subst (λ t. View s.env t) (sym (ap (λ (x : Store heed M N E). x.env) moved))
            (drop-View s.env id p now c.tables e)
    ]
  ]

  abort_all-View :
      (fault : Faults) (now : ℕ → DateTime) (s : Store heed M N E)
      → IsConsistent heed s
      → View s.env (abort_pendings heed fault now s).1.env
  abort_all-View fault now s c = elim (abort_pendings-effect heed fault now s) [
    | inl same ↦ same-View s.env _ (ap (λ (x : Store heed M N E). x.env) same)
    | inr moved ↦
        let all = heed.iter s.env.pending_meta in
        subst (λ t. View s.env t) (sym (ap (λ (x : Store heed M N E). x.env) moved))
          (drop_each-View now (drop 1 all) s.env
            (Ascending-drop all (heed.iter-Ascending s.env.pending_meta))
            (λ id p i. get-of-In nat_key heed s.env.pending_meta id p (In-drop (id, p) all i))
            c.tables)
  ]

  finish-env :
      (fault : Faults) (f : InFlight M N E) (s : Store heed M N E)
      → ((finish heed fault f s).1.env ≡ s.env)
        ⊎ ((finish heed fault f s).1.env ≡ complete heed s.env f.first_id f.result)
  unfolding finish
  finish-env fault f s = ground arith

  land-View :
      (t : Tables heed M N E) (k : ℕ) (p : Pending M) (r : Processed M N ⊎ Failed M E)
      → WellFormed heed t
      → get t.pending_meta k ≡ some p
      → View t (complete heed t k r)
  land-View t k p (inl d) w h =
      subst (λ v. Moves M N E (view heed t) v) (sym (view-complete_ok heed t k p d w h))
        (also stay (Move.complete (view heed t) k p d (view-pending heed t k p w h)))
  land-View t k p (inr f) w h =
      subst (λ v. Moves M N E (view heed t) v) (sym (view-complete_err heed t k p f w h))
        (also stay (Move.fail (view heed t) k p f (view-pending heed t k p w h)))

  step-View :
      {x y : System heed M N E}
      → IsSound heed M N E x
      → Step heed M N E x y
      → View x.store.env y.store.env
  step-View h (Step.register sys fault meta content u now room) =
      register-View fault meta content u now sys.store room
  step-View h (Step.abort_one sys fault now id) = abort-View fault now id sys.store h.consistent
  step-View h (Step.abort_all sys fault now) = abort_all-View fault now sys.store h.consistent
  step-View h (Step.take s fault handler now g keeps t) =
      same-View s.env _ (env-take_first heed fault handler now s)
  step-View h (Step.take_nothing s fault handler now none_left) =
      same-View s.env _ (env-take_first heed fault handler now s)
  step-View h (Step.land s fault f) = elim (finish-env fault f s) [
    | inl same ↦ same-View s.env _ same
    | inr done_with ↦
        let fly = h.flying f refl in
        subst (λ t. View s.env t) (sym done_with)
          (land-View s.env f.first_id fly.entry f.result h.consistent.tables
            (first-get nat_key heed s.env.pending_meta fly.still_first))
  ]
  step-View h (Step.restart sys) = stay

  -- From a sound system, every sequence of steps is a sequence of moves of the abstract queue, whichever
  -- calls fail; the steps are registrations with room for a greater id, abortions, the two halves of a
  -- round with a handler whose results bear the id of the update, and restarts. In a move, an update enters
  -- under a vacant id, or one that waits is completed, fails, which leaves its id vacant, or is
  -- dropped.
  pub Reach-Moves :
      {x y : System heed M N E}
      → IsSound heed M N E x
      → Reach heed M N E x y
      → Moves M N E (view heed x.store.env) (view heed y.store.env)
  Reach-Moves h Reach.here = stay
  Reach-Moves h (Reach.next r st) =
      append-Moves M N E (Reach-Moves h r) (step-View (Reach-IsSound heed M N E h r) st)

  -- From a sound system, a processed or an aborted update stays what it is, whatever steps are taken
  -- and whichever calls fail: registrations with room for a greater id, abortions, the two halves of a round with a
  -- handler whose results bear the id of the update, and restarts.
  pub Reach-final :
      {x y : System heed M N E}
      → IsSound heed M N E x
      → Reach heed M N E x y
      → (k : ℕ) → IsFinal (view heed x.store.env k).stage
      → (view heed y.store.env k).stage ≡ (view heed x.store.env k).stage
  Reach-final h r k final = Moves-final M N E k (Reach-Moves h r) final
