-- ===== src/UpdateActor/Laws.antt =====
-- What the handlers of meilisearch-http/src/index_controller/update_actor.rs leave alone.
use transplant.Base.{
  ℕ, subst, sym, Option, ◌≡◌, ◌≢◌, refl, ap, ◌∙◌, some, List, [], ◌∷◌, ◌++◌, arith, Option-cases,
  inl, inr, String, ◌+◌,
}
use transplant.Base.Outcome.{ok}
use transplant.Base.Exec.{Exec, ◌>>=◌, ◌>>◌, pure, attempt, spawn_blocking}
use transplant.Base.Keeps.{Order, bind-keeps}
use transplant.Heed.{Heed}
use transplant.Heed.Keys.{nat_key}
use transplant.Updates.{Uuid, DateTime, UpdateStatus, Pending, pending}
use transplant.UpdateStore as Queue
use transplant.UpdateStore.{Error, Content, Store, register_update}
use transplant.UpdateActor.{
  UpdateError, Faults, Json, State, Chunk, bytes, broken, get_or_create, get_store, write_payload,
  check_payload, receive_payload, handle_update, in_store, over, put_file, failing, write_chunk,
  open_file, flush, seek, join, content_of, failed_join,
}

module _ (heed : Heed nat_key) (json : Json) (path_of : Uuid → String) {M N E : Type 0} where
  -- Only the update files differ.
  abbrev pub OnlyFiles : State heed M N E → State heed M N E → Type 0
  OnlyFiles s s' = (s'.loaded ≡ s.loaded) × (s'.dir_exists ≡ s.dir_exists) × (s'.store ≡ s.store)

  pub only_files : Order OnlyFiles
  only_files = record {
    same = λ s. (refl, refl, refl);
    next = λ s s' s'' p q. (q.0 ∙ p.0, q.1 ∙ p.1, q.2 ∙ p.2);
  }

  write_payload-OnlyFiles :
      (fault : Faults) (path : String) (old : Content) (n : ℕ) (written : Content) (l : List Chunk)
      (s : State heed M N E)
      → OnlyFiles s (write_payload heed json path_of fault path old n written l s).1
  unfolding write_payload
  write_payload-OnlyFiles fault path old n written [] s = (refl, refl, refl)
  write_payload-OnlyFiles fault path old n written (broken e ∷ l) s = (refl, refl, refl)
  write_payload-OnlyFiles fault path old n written (bytes b ∷ l) s =
      elim (Option-cases (fault (write_chunk n))) [
        | inr (c, e) ↦ rw e (refl, refl, refl)
        | inl e ↦ rw e (
            write_payload-OnlyFiles fault path old (n + 1) (written ++ b) l
              (put_file heed json path_of path (over (written ++ b) old) s))
      ]

  pub receive_payload-OnlyFiles :
      (fault : Faults) (new_v4 : Uuid) (l : List Chunk) (s : State heed M N E)
      → OnlyFiles s (receive_payload heed json path_of fault new_v4 l s).1
  unfolding receive_payload
  receive_payload-OnlyFiles fault new_v4 l s = elim (Option-cases (fault open_file)) [
    | inr (c, e) ↦ rw e (refl, refl, refl)
    | inl e ↦
        let path = path_of new_v4 in
        let old = content_of (s.files path) in
        rw e (
          bind-keeps only_files (write_payload heed json path_of fault path old 0 [] l)
            (λ content.
              attempt (failing (fault flush)) >> (attempt (failing (fault seek)) >> pure content))
            (write_payload-OnlyFiles fault path old 0 [] l) (λ content s' h. ground arith)
            (put_file heed json path_of path old s))
  ]

  pub check_payload-OnlyFiles :
      (fault : Faults) (content : Content) (s : State heed M N E)
      → OnlyFiles s (check_payload heed json path_of fault content s).1
  unfolding check_payload
  check_payload-OnlyFiles fault content s = ground arith

  attempt-OnlyFiles : (o : Option UpdateError) (s : State heed M N E) → OnlyFiles s (attempt o s).1
  attempt-OnlyFiles o s = ground arith

  module _ (index : Uuid) where
    -- The other indexes' stores and directories are as they were.
    abbrev pub SameElsewhere : State heed M N E → State heed M N E → Type 0
    SameElsewhere s s' =
        (j : Uuid)
        → j ≢ index
        → (s'.store j ≡ s.store j) × (s'.loaded j ≡ s.loaded j) × (s'.dir_exists j ≡ s.dir_exists j)

    elsewhere : Order SameElsewhere
    elsewhere = record {
      same = λ s j n. (refl, refl, refl);
      next =
          λ s s' s'' p q j n. ((q j n).0 ∙ (p j n).0, (q j n).1 ∙ (p j n).1, (q j n).2 ∙ (p j n).2);
    }

    of_files : (s s' : State heed M N E) → OnlyFiles s s' → SameElsewhere s s'
    of_files s s' p j n = (ap (λ f. f j) p.2, ap (λ f. f j) p.0, ap (λ f. f j) p.1)

    get_or_create-elsewhere :
        (fault : Faults) (s : State heed M N E)
        → SameElsewhere s (get_or_create heed json path_of fault index s).1
    unfolding get_or_create
    get_or_create-elsewhere fault s j n = ground arith

    pub get_or_create-ok :
        (fault : Faults) (s : State heed M N E) {u : Uuid}
        → (get_or_create heed json path_of fault index s).0 ≡ ok u
        → u ≡ index
    unfolding get_or_create
    get_or_create-ok fault s h = ground arith

    get_store-elsewhere :
        (fault : Faults) (s : State heed M N E)
        → SameElsewhere s (get_store heed json path_of fault index s).1
    unfolding get_store
    get_store-elsewhere fault s j n = ground arith

    get_store-ok :
        (fault : Faults) (s : State heed M N E) {u : Uuid}
        → (get_store heed json path_of fault index s).0 ≡ ok (some u)
        → u ≡ index
    unfolding get_store
    get_store-ok fault s h = ground arith

    in_store-elsewhere :
        {A : Type 0} (m : Exec (Store heed M N E) Error A) (u : Uuid) (s : State heed M N E)
        → u ≡ index
        → SameElsewhere s (in_store heed json path_of u m s).1
    in_store-elsewhere m u s e j n = ground arith

    -- A registration keeps what opening the store, writing files and queueing the update keep.
    pub handle_update-keeps :
        {R : State heed M N E → State heed M N E → Type 0} (order : Order R) (fault : Faults)
        (stored : Queue.Faults) (meta : M) (payload : List Chunk) (new_v4 : Uuid) (now : DateTime)
        → ((s : State heed M N E) → R s (get_or_create heed json path_of fault index s).1)
        → ((s s' : State heed M N E) → OnlyFiles s s' → R s s')
        → ((s : State heed M N E)
            → R s
                (in_store heed json path_of index
                  (register_update heed stored meta (path_of new_v4) index now)
                  s).1)
        → (s : State heed M N E)
        → R s (handle_update heed json path_of fault stored index meta payload new_v4 now s).1
    unfolding handle_update
    handle_update-keeps {R} order fault stored meta payload new_v4 now opens files queues =
        let stored_in : Uuid → Exec (State heed M N E) UpdateError (Pending M) = λ u.
          in_store heed json path_of u
            (register_update heed stored meta (path_of new_v4) index now) in
        let register : Uuid → Exec (State heed M N E) UpdateError (UpdateStatus M N E) =
          λ u. stored_in u >>= λ p. pure (pending p) in
        let checked : Uuid → Content → Exec (State heed M N E) UpdateError (UpdateStatus M N E) =
          λ u content. check_payload heed json path_of fault content >> register u in
        let receive = receive_payload heed json path_of fault new_v4 payload in
        bind-keeps order (get_or_create heed json path_of fault index)
          (λ u. receive >>= λ content.
            attempt (failing (fault join)) >> spawn_blocking failed_join (checked u content))
          opens
          (λ u s₀ is_index.
            bind-keeps order receive
              (λ content.
                attempt (failing (fault join)) >> spawn_blocking failed_join (checked u content))
              (λ s₁. files s₁ (receive s₁).1 (receive_payload-OnlyFiles fault new_v4 payload s₁))
              (λ content s₁ h.
                bind-keeps order (attempt (failing (fault join)))
                  (λ x. spawn_blocking failed_join (checked u content))
                  (λ s₂.
                    files s₂ (attempt (failing (fault join)) s₂).1
                      (attempt-OnlyFiles (failing (fault join)) s₂))
                  (λ x s₂ h'.
                    bind-keeps order (check_payload heed json path_of fault content)
                      (λ y. register u)
                      (λ s₃.
                        files s₃ (check_payload heed json path_of fault content s₃).1
                          (check_payload-OnlyFiles fault content s₃))
                      (λ y s₃ h''.
                        bind-keeps order (stored_in u) (λ p. pure (pending p))
                          (λ s₄.
                            subst (λ v. R s₄ (stored_in v s₄).1)
                              (sym (get_or_create-ok fault s₀ is_index)) (queues s₄))
                          (λ p s₄ h₄. order.same (stored_in u s₄).1)
                          (check_payload heed json path_of fault content s₃).1)
                      (attempt (failing (fault join)) s₂).1)
                  (receive s₁).1)
              (get_or_create heed json path_of fault index s₀).1)

    -- Whatever the registration of an update answers and whatever fails, the store, the map
    -- entry and the directory of every other index are as they were.
    pub handle_update-elsewhere :
        (fault : Faults) (stored : Queue.Faults) (meta : M) (payload : List Chunk) (new_v4 : Uuid)
        (now : DateTime) (s : State heed M N E)
        → SameElsewhere s
            (handle_update heed json path_of fault stored index meta payload new_v4 now s).1
    handle_update-elsewhere fault stored meta payload new_v4 now =
        handle_update-keeps elsewhere fault stored meta payload new_v4 now
          (get_or_create-elsewhere fault) of_files
          (λ s.
            in_store-elsewhere (register_update heed stored meta (path_of new_v4) index now) index s
              refl)
