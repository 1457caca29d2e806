-- ===== src/UpdateActor/Refused.antt =====
-- An update that is refused leaves every queue as it was, and a deleted index has no queue,
-- meilisearch-http/src/index_controller/update_actor.rs.
use transplant.Base.{
  ℕ, ◌≡◌, ◌≢◌, refl, ap, ◌∙◌, sym, subst, ◌⊎◌, true, List, arith, inl, inr, String,
}
use transplant.Base.Outcome.{Outcome, ok, err, panicked, joined, Outcome-cases}
use transplant.Base.Exec.{Exec, ◌>>=◌, ◌>>◌, continue, pure, attempt, spawn_blocking}
use transplant.Base.Keeps.{Order, bind-err-leads}
use transplant.Heed.{Heed}
use transplant.Heed.Keys.{nat_key}
use transplant.Updates.{Uuid, DateTime, UpdateStatus, Pending, pending}
use transplant.UpdateStore as Queue
use transplant.UpdateStore.{Error, Content, Store, register_update}
use transplant.UpdateStore.Register.{
  register_update-atomic, register_update-panicked, enqueue, registered,
}
use transplant.UpdateActor.{
  UpdateError, Faults, Json, State, Chunk, get_or_create, get_store, delete_store, check_payload,
  receive_payload, handle_update, handle_delete, handle_get_update, in_store, failing, failed_join,
  join, unexisting_index,
}
use transplant.UpdateActor.Laws.{
  OnlyFiles, receive_payload-OnlyFiles, check_payload-OnlyFiles, get_or_create-ok,
}

same_or_other : (i j : ℕ) → (i ≡ j) ⊎ (i ≢ j)
same_or_other i j = ground arith

module _ (heed : Heed nat_key) (json : Json) (path_of : Uuid → String) {M N E : Type 0} where
  -- The directories that were there are there, with the tables that they had.
  abbrev pub KeepsTables : State heed M N E → State heed M N E → Type 0
  KeepsTables s s' =
      (j : Uuid)
      → s.dir_exists j ≡ true
      → (s'.dir_exists j ≡ true) × ((s'.store j).env ≡ (s.store j).env)

  keeps_tables : Order KeepsTables
  keeps_tables = record {
    same = λ s j h. (h, refl);
    next = λ s s' s'' p q j h. ((q j (p j h).0).0, (q j (p j h).0).1 ∙ (p j h).1);
  }

  of_files : (s s' : State heed M N E) → OnlyFiles heed json path_of s s' → KeepsTables s s'
  of_files s s' p j h = (ap (λ f. f j) p.1 ∙ h, ap (λ f. (f j).env) p.2)

  get_or_create-KeepsTables :
      (fault : Faults) (index : Uuid) (s : State heed M N E)
      → KeepsTables s (get_or_create heed json path_of fault index s).1
  unfolding get_or_create
  get_or_create-KeepsTables fault index s j h = ground arith

  -- What a registration that is answered by an error leaves: each directory has the tables that it
  -- had, or it is the directory of the index, the error says that the loop of its store has exited,
  -- and the update is queued there all the same.
  abbrev pub Refuses : String → Uuid → UpdateError → State heed M N E → State heed M N E → Type 0
  Refuses path index e s s' =
      (j : Uuid)
      → s.dir_exists j ≡ true
      → (s'.dir_exists j ≡ true)
        × (((s'.store j).env ≡ (s.store j).env)
            ⊎ ((j ≡ index)
                × (e ≡ failed_join "Update store loop exited.")
                × (p : Pending M) × ((s'.store j).env ≡ enqueue heed (s.store j).env p path)))

  module _ (path : String) (index : Uuid) where
    Refuses-stop :
        (e : UpdateError) (s s' : State heed M N E) → KeepsTables s s' → Refuses path index e s s'
    Refuses-stop e s s' k j h = ((k j h).0, inl ((k j h).1))

    Refuses-lead :
        (e : UpdateError) (s s' s'' : State heed M N E)
        → KeepsTables s s'
        → Refuses path index e s' s''
        → Refuses path index e s s''
    Refuses-lead e s s' s'' k r j h =
        let (there, same) = k j h in
        let (there', after) = r j there in
        (
          there',
          elim after [
            | inl kept ↦ inl (kept ∙ same)
            | inr (is_index, exited, p, queued) ↦
                inr (is_index, exited, p, queued ∙ ap (λ t. enqueue heed t p path) same)
          ],
        )

  module _ (stored : Queue.Faults) (meta : M) (path : String) (index : Uuid) (now : DateTime) where
    abbrev queueing : Uuid → Exec (State heed M N E) UpdateError (UpdateStatus M N E)
    queueing u =
        in_store heed json path_of u (register_update heed stored meta path index now) >>= λ p.
        pure (pending p)

    register-Refuses :
        (s : State heed M N E) (e : UpdateError)
        → (spawn_blocking failed_join (queueing index) s).0 ≡ err e
        → Refuses path index e s (queueing index s).1
    register-Refuses s e h j there =
        let at : Store heed M N E = record (s.store index) { files = s.files } in
        elim (Outcome-cases (register_update heed stored meta path index now at).0) [
          | inl (p, is_ok) ↦ absurd (ground (arith, h, is_ok))
          | inr (inl (x, is_err)) ↦
              let same = register_update-atomic heed stored meta path index now at is_err in
              (ground (arith, there, is_err), inl (ground (arith, same, is_err)))
          | inr (inr (m, is_panic)) ↦
              let (text, queued) =
                register_update-panicked heed stored meta path index now at is_panic in
              let dirs : (queueing index s).1.dir_exists j ≡ true =
                ground (arith, there, is_panic) in
              let p = registered heed stored meta path index now at in
              elim (same_or_other j index) [
                | inl same ↦
                    let env : ((queueing index s).1.store index).env
                        ≡ enqueue heed (s.store index).env p path =
                      ground (arith, queued, is_panic) in
                    let here =
                      subst
                        (λ i.
                          ((queueing index s).1.store i).env ≡ enqueue heed (s.store i).env p path)
                        (sym same) env in
                    (dirs, inr (same, ground (arith, h, is_panic, text), p, here))
                | inr other ↦ (dirs, inl (ground (arith, other, is_panic)))
              ]
        ]

  -- A blocking task that goes on after a step that kept the tables.
  after-Refuses :
      {A B : Type 0} (path : String) (index : Uuid) (r : Outcome UpdateError A)
      (f : A → Exec (State heed M N E) UpdateError B) (e : UpdateError) (s s' : State heed M N E)
      → KeepsTables s s'
      → ((a : A) (s' : State heed M N E)
          → (spawn_blocking failed_join (f a) s').0 ≡ err e
          → Refuses path index e s' (f a s').1)
      → joined failed_join ((continue r f s').0) ≡ err e
      → Refuses path index e s (continue r f s').1
  after-Refuses path index (ok a) f e s s' k g h =
      Refuses-lead path index e s s' (f a s').1 k (g a s' h)
  after-Refuses path index (err x) f e s s' k g h = Refuses-stop path index e s s' k
  after-Refuses path index (panicked m) f e s s' k g h = Refuses-stop path index e s s' k

  -- The blocking task: the check of the payload and the registration.
  checked-Refuses :
      (fault : Faults) (stored : Queue.Faults) (meta : M) (new_v4 : Uuid) (index : Uuid)
      (now : DateTime) (content : Content) {u : Uuid}
      → u ≡ index
      → (s : State heed M N E) (e : UpdateError)
      → (spawn_blocking failed_join
          (check_payload heed json path_of fault content
            >> queueing stored meta (path_of new_v4) index now u)
          s).0
        ≡ err e
      → Refuses
          (path_of new_v4)
          index
          e
          s
          ((check_payload heed json path_of fault content
              >> queueing stored meta (path_of new_v4) index now u)
            s).1
  checked-Refuses fault stored meta new_v4 index now content {u} same s e h =
      let path = path_of new_v4 in
      let check = check_payload heed json path_of fault content in
      after-Refuses path index (check s).0 (λ x. queueing stored meta path index now u) e s
        (check s).1
        (of_files s (check s).1 (check_payload-OnlyFiles heed json path_of fault content s))
        (λ x s' g.
          subst
            (λ v.
              (spawn_blocking failed_join (queueing stored meta path index now v) s').0 ≡ err e
              → Refuses path index e s' (queueing stored meta path index now v s').1)
            (sym same) (register-Refuses stored meta path index now s' e) g)
        h

  -- When the registration of an update returns an error, every directory of updates that was there
  -- is still there, with the tables that it had; except that, when the error says that the loop of
  -- the update store has exited, the update may have been queued in the directory of its index,
  -- with the path of its file.
  pub handle_update-refused :
      (fault : Faults) (stored : Queue.Faults) (index : Uuid) (meta : M) (payload : List Chunk)
      (new_v4 : Uuid) (now : DateTime) (s : State heed M N E) (e : UpdateError)
      → (handle_update heed json path_of fault stored index meta payload new_v4 now s).0 ≡ err e
      → Refuses
          (path_of new_v4)
          index
          e
          s
          (handle_update heed json path_of fault stored index meta payload new_v4 now s).1
  unfolding handle_update
  handle_update-refused fault stored index meta payload new_v4 now s e h =
      let path = path_of new_v4 in
      let Q = Refuses path index in
      let stop = Refuses-stop path index in
      let lead = Refuses-lead path index in
      let register = queueing stored meta path index now in
      let checked : Uuid → Content → Exec (State heed M N E) UpdateError (UpdateStatus M N E) =
        λ u content. check_payload heed json path_of fault content >> register u in
      let receive = receive_payload heed json path_of fault new_v4 payload in
      let task : Uuid → Content → Exec (State heed M N E) UpdateError (UpdateStatus M N E) =
        λ u content. spawn_blocking failed_join (checked u content) in
      let joining = attempt {S = State heed M N E} (failing (fault join)) in
      bind-err-leads keeps_tables {Q = Q} stop lead (get_or_create heed json path_of fault index)
        (λ u. receive >>= λ content. joining >> task u content)
        (get_or_create-KeepsTables fault index)
        (λ u s₀ e₀ is_index.
          bind-err-leads keeps_tables {Q = Q} stop lead receive
            (λ content. joining >> task u content)
            (λ s₁.
              of_files s₁ (receive s₁).1
                (receive_payload-OnlyFiles heed json path_of fault new_v4 payload s₁))
            (λ content s₁ e₁ received.
              bind-err-leads keeps_tables {Q = Q} stop lead joining (λ x. task u content)
                (λ s₂ j there. ground arith)
                (λ x s₂ e₂ started.
                  checked-Refuses fault stored meta new_v4 index now content
                    (get_or_create-ok heed json path_of index fault s₀ is_index) (joining s₂).1 e₂)
                (receive s₁).1 e₁)
            (get_or_create heed json path_of fault index s₀).1 e₀)
        s e h

  -- When the deletion of an index returns, asking for the state of any update of that index
  -- answers that the index does not exist, whatever fails then.
  pub handle_delete-get :
      (fault fault' : Faults) (stored : Queue.Faults) (index : Uuid) (id : ℕ) (s : State heed M N E)
      → (handle_delete heed json path_of fault index s).0 ≡ ok tt
      → (handle_get_update heed json path_of fault' stored index id
          (handle_delete heed json path_of fault index s).1).0
        ≡ err (unexisting_index index)
  unfolding handle_delete handle_get_update delete_store get_store
  handle_delete-get fault fault' stored index id s h = ground arith
