-- ===== src/UpdateActor/RoundTrip.antt =====
-- The state of an update that was registered can be asked for,
-- meilisearch-http/src/index_controller/update_actor.rs.
use transplant.Base.{
  ℕ, ◌≡◌, ◌≢◌, refl, sym, ap, ◌∙◌, subst, true, none, some, List, arith, Option-cases, ◌⊎◌, inl,
  inr, String, set,
}
use transplant.Base.Outcome.{Outcome, ok, err, panicked, map_err}
use transplant.Base.Exec.{
  Exec, ◌>>=◌, ◌>>◌, pure, attempt, spawn_blocking, spawn_blocking-ok, bind-ok, attempt-ok,
}
use transplant.Heed.{Heed}
use transplant.Heed.Keys.{nat_key}
use transplant.Heed.Laws.{first-get}
use transplant.Updates.{
  Uuid, DateTime, UpdateStatus, Pending, Processed, Aborted, Failed, pending, processing_id,
  new_pending,
}
use transplant.UpdateStore as Queue
use transplant.UpdateStore.{Error, Content, Store, Tables, register_update}
use transplant.UpdateStore.Read.{meta, stored_meta}
use transplant.UpdateStore.Register.{HasRoom, register_update-ok}
use transplant.UpdateStore.Invariant.{IsConsistent, WellFormed}
use transplant.UpdateStore.Consistency.{next_id-unused}
use transplant.UpdateActor.{
  UpdateError, error, failed_join, store_error, Faults, no_faults, Json, State, Chunk,
  get_or_create, receive_payload, check_payload, get_store, handle_update, handle_get_update,
  in_store, failing, join, opened, empty_tables,
}
use transplant.UpdateActor.Laws.{
  OnlyFiles, receive_payload-OnlyFiles, check_payload-OnlyFiles, get_or_create-ok, only_files,
}
use transplant.UpdateActor.Files.{IsGrown, receive_payload-IsGrown, check_payload-files}

pub map_err-ok :
    {A E F : Type 0} (f : E → F) (r : Outcome E A) {a : A} → map_err f r ≡ ok a → r ≡ ok a
map_err-ok f (ok a) h = cc h
map_err-ok f (err e) h = cc h
map_err-ok f (panicked m) h = cc h

pub ok_injective : {A E : Type 0} {x : Outcome E A} {a b : A} → x ≡ ok a → x ≡ ok b → a ≡ b
ok_injective h h' = cc (h, h')

pub set_same : {A : Type 0} (f : ℕ → A) (k : ℕ) (v : A) → set f k v k ≡ v
set_same f k v = ground arith

module _ (heed : Heed nat_key) {M N E : Type 0} where
  -- An update that was just registered is what `meta` finds under its id.
  pub register_update-meta :
      (fault : Queue.Faults) (m : M) (path : String) (index : Uuid) (now : DateTime)
      (s : Store heed M N E) {p : Pending M}
      → IsConsistent heed s
      → HasRoom heed s.env
      → (register_update heed fault m path index now s).0 ≡ ok p
      → let s' = (register_update heed fault m path index now s).1 in
        (meta heed Queue.no_faults p.update_id s').0 ≡ ok (some (pending p))
  unfolding meta stored_meta
  register_update-meta fault m path index now s {p} good room h =
      let (is_p, after) = register_update-ok heed fault m path index now s h in
      let (unused, _, _) = next_id-unused heed s.env room in
      let s' = (register_update heed fault m path index now s).1 in
      let row : heed.get s'.env.pending_meta p.update_id ≡ some p =
        ap (λ x. heed.get x.env.pending_meta p.update_id) after
        ∙ ap (λ q. heed.get (heed.put s.env.pending_meta q.update_id q) p.update_id) (sym is_p)
        ∙ ground (arith, heed.get-put s.env.pending_meta p.update_id p.update_id p) in
      let mark : s'.processing ≡ s.processing = ap (λ x. x.processing) after in
      elim (Option-cases s.processing) [
        | inl e ↦ ground (arith, row, mark, e)
        | inr (q, e) ↦
            let first = good.current_first q e in
            let other : processing_id q ≢ p.update_id = λ same.
              ground (arith, first-get nat_key heed s.env.pending_meta first, unused, same, is_p) in
            ground (arith, row, mark, e, other)
      ]

  -- A store that has just been opened, over its own tables or over new ones.
  pub opened-IsConsistent :
      (json : Json) (path_of : Uuid → String) (t : Tables heed M N E)
      → WellFormed heed t
      → IsConsistent heed (opened heed json path_of t)
  opened-IsConsistent json path_of t h = record { tables = h; current_first = λ q e. absurd (cc e) }

  pub empty-WellFormed :
      (json : Json) (path_of : Uuid → String)
      → WellFormed heed (empty_tables heed json path_of {M = M} {N = N} {E = E})
  empty-WellFormed json path_of = record {
    pending_keyed = λ k p e. absurd (ground (arith, e, heed.get-empty (Pending M) k));
    processed_keyed = λ k p e. absurd (ground (arith, e, heed.get-empty (Processed M N) k));
    aborted_keyed = λ k p e. absurd (ground (arith, e, heed.get-empty (Aborted M) k));
    failed_keyed = λ k p e. absurd (ground (arith, e, heed.get-empty (Failed M E) k));
    content_kept = λ k e. heed.get-empty (Pending M) k;
    content_dropped = λ k e. heed.get-empty String k;
    pending_apart = λ k p e. absurd (ground (arith, e, heed.get-empty (Pending M) k));
    processed_apart = λ k p e. absurd (ground (arith, e, heed.get-empty (Processed M N) k));
  }

  pub empty-HasRoom :
      (t : Tables heed M N E)
      → t.pending_meta ≡ heed.empty (Pending M)
      → t.processed_meta ≡ heed.empty (Processed M N)
      → t.aborted_meta ≡ heed.empty (Aborted M)
      → HasRoom heed t
  empty-HasRoom t p q a k h = elim h [
    | inl n ↦ absurd (n (ap (λ d. heed.get d k) p ∙ heed.get-empty (Pending M) k))
    | inr (inl n) ↦ absurd (n (ap (λ d. heed.get d k) q ∙ heed.get-empty (Processed M N) k))
    | inr (inr n) ↦ absurd (n (ap (λ d. heed.get d k) a ∙ heed.get-empty (Aborted M) k))
  ]

  -- The store can take one more update.
  abbrev pub IsReady : Store heed M N E → Type 0
  IsReady s = IsConsistent heed s × HasRoom heed s.env

  module _ (json : Json) (path_of : Uuid → String) (fault : Faults) (index : Uuid) where
    pub get_or_create-store :
        (st : State heed M N E)
        → let s' = (get_or_create heed json path_of fault index st).1.store index in
          (s' ≡ st.store index)
          ⊎ (s' ≡ opened heed json path_of (st.store index).env)
          ⊎ (s' ≡ opened heed json path_of (empty_tables heed json path_of))
    unfolding get_or_create
    get_or_create-store st = ground arith

    pub get_or_create-IsReady :
        (st : State heed M N E)
        → IsReady (st.store index)
        → IsReady ((get_or_create heed json path_of fault index st).1.store index)
    get_or_create-IsReady st h = elim (get_or_create-store st) [
      | inl e ↦ subst IsReady (sym e) h
      | inr (inl e) ↦
          subst IsReady (sym e)
            (opened-IsConsistent json path_of (st.store index).env h.0.tables, h.1)
      | inr (inr e) ↦ subst IsReady (sym e) (
        opened-IsConsistent json path_of (empty_tables heed json path_of)
            (empty-WellFormed json path_of),
        empty-HasRoom (empty_tables heed json path_of) refl refl refl,
      )
    ]

    get_or_create-loaded :
        (st : State heed M N E) {u : Uuid}
        → (get_or_create heed json path_of fault index st).0 ≡ ok u
        → (get_or_create heed json path_of fault index st).1.loaded index ≡ true
    unfolding get_or_create
    get_or_create-loaded st h = ground arith

    module _ (stored : Queue.Faults) (meta_of : M) (payload : List Chunk) (new_v4 : Uuid)
        (now : DateTime) (st : State heed M N E) where
      abbrev pub register : Exec (State heed M N E) UpdateError (Pending M)
      register =
          in_store heed json path_of index
            (register_update heed stored meta_of (path_of new_v4) index now)

      -- An update whose registration returns was registered in the store of its index after steps that
      -- only wrote files, its own among them.
      pub handle_update-registered :
          {status : UpdateStatus M N E}
          → (handle_update heed json path_of fault stored index meta_of payload new_v4 now st).0
            ≡ ok status
          → (at : State heed M N E) × (p : Pending M) × OnlyFiles heed json path_of
              (get_or_create heed json path_of fault index st).1
              at
            × ((register at).0 ≡ ok p)
            × (handle_update heed json path_of fault stored index meta_of payload new_v4 now st
                ≡ (ok (pending p), (register at).1))
            × ((get_or_create heed json path_of fault index st).1.loaded index ≡ true)
            × IsGrown heed json path_of (get_or_create heed json path_of fault index st).1 at
            × (at.files (path_of new_v4) ≢ none)
      unfolding handle_update
      handle_update-registered {status} h =
          let stored_in : Uuid → Exec (State heed M N E) UpdateError (Pending M) = λ u.
            in_store heed json path_of u
              (register_update heed stored meta_of (path_of new_v4) index now) in
          let finish : Pending M → Exec (State heed M N E) UpdateError (UpdateStatus M N E) =
            λ p. pure (pending p) in
          let checked : Uuid → Content → Exec (State heed M N E) UpdateError (UpdateStatus M N E) =
            λ u content.
              check_payload heed json path_of fault content >> (stored_in u >>= finish) in
          let joined : Uuid → Content → Exec (State heed M N E) UpdateError (UpdateStatus M N E) =
            λ u content.
              attempt (failing (fault join)) >> spawn_blocking failed_join (checked u content) in
          let receive = receive_payload heed json path_of fault new_v4 payload in
          let create = get_or_create heed json path_of fault index in
          let (u, is_u, e₁) = bind-ok create (λ u. receive >>= joined u) st h in
          let s₁ = (create st).1 in
          let (content, received, e₂) =
            bind-ok receive (joined u) s₁ (ap (λ r. r.0) (sym e₁) ∙ h) in
          let s₂ = (receive s₁).1 in
          let h₂ : (joined u content s₂).0 ≡ ok status = ap (λ r. r.0) (sym (e₁ ∙ e₂)) ∙ h in
          let e₃ =
            attempt-ok (failing (fault join)) (spawn_blocking failed_join (checked u content)) s₂ h₂
            ∙ spawn_blocking-ok failed_join (checked u content) s₂ (
                rw
                  (attempt-ok (failing (fault join))
                    (spawn_blocking failed_join (checked u content)) s₂ h₂)
                  at h₂) in
          let (x, passed, e₄) =
            bind-ok (check_payload heed json path_of fault content) (λ y. stored_in u >>= finish) s₂
              (ap (λ r. r.0) (sym e₃) ∙ h₂) in
          let s₃ = (check_payload heed json path_of fault content s₂).1 in
          let all = e₁ ∙ e₂ ∙ e₃ ∙ e₄ in
          let same = get_or_create-ok heed json path_of index fault st is_u in
          let (grows, there) =
            receive_payload-IsGrown heed json path_of fault new_v4 payload s₁ received in
          let kept = check_payload-files heed json path_of fault content s₂ in
          let (p, done_p, e₅) =
            bind-ok register finish s₃ (
              ap (λ v. ((stored_in v >>= finish) s₃).0) (sym same) ∙ ap (λ r. r.0) (sym all) ∙ h) in
          let ends = all ∙ ap (λ v. (stored_in v >>= finish) s₃) same ∙ e₅ in
          (
            s₃,
            p,
            (only_files heed json path_of).next s₁ s₂ s₃
                (receive_payload-OnlyFiles heed json path_of fault new_v4 payload s₁)
                (check_payload-OnlyFiles heed json path_of fault content s₂),
            done_p,
            ends,
            get_or_create-loaded st is_u,
            λ q n e. grows q n (ap (λ f. f q) (sym kept) ∙ e),
            λ e. there (ap (λ f. f (path_of new_v4)) (sym kept) ∙ e),
          )

      -- What is asked for is read in the store that the index has.
      get_update-loaded :
          (at : State heed M N E) (k : ℕ) {p : Pending M}
          → (s : Store heed M N E) → at.loaded index ≡ true
          → record (at.store index) { files = at.files } ≡ s
          → (meta heed Queue.no_faults k s).0 ≡ ok (some (pending p))
          → (handle_get_update heed json path_of no_faults Queue.no_faults index k at).0
            ≡ ok (pending p)
      unfolding handle_get_update get_store
      get_update-loaded at k s loaded same found = ground (arith, loaded, found, same)

      -- When the registration of an update returns, for an index whose store is consistent and has room
      -- for one more id, it returns a pending update with the given metadata, index and time, and the
      -- actor answers a question for that id with the same update, no call failing then.
      pub handle_update-get :
          {status : UpdateStatus M N E}
          → IsReady (st.store index)
          → (handle_update heed json path_of fault stored index meta_of payload new_v4 now st).0
            ≡ ok status
          → let st' =
              (handle_update heed json path_of fault stored index meta_of payload new_v4 now
                st).1 in
            (id : ℕ) × (status ≡ pending (new_pending meta_of id index now))
            × ((handle_get_update heed json path_of no_faults Queue.no_faults index id st').0
                ≡ ok status)
      handle_update-get {status} ready h =
          let (at, p, (loaded, dirs, stores), ran, ends, is_loaded, _, _) =
            handle_update-registered h in
          let s : Store heed M N E = record (at.store index) { files = at.files } in
          let s' = (register_update heed stored meta_of (path_of new_v4) index now s).1 in
          let known : (register_update heed stored meta_of (path_of new_v4) index now s).0 ≡ ok p =
            map_err-ok (λ e. error (store_error e)) _ ran in
          let same : status ≡ pending p = ok_injective h (ap (λ r. r.0) ends) in
          let ready' =
            subst IsReady (sym (ap (λ f. f index) stores)) (get_or_create-IsReady st ready) in
          let found =
            register_update-meta stored meta_of (path_of new_v4) index now s
              (record { tables = ready'.0.tables; current_first = ready'.0.current_first }) ready'.1
              known in
          let (is_p, after) =
            register_update-ok heed stored meta_of (path_of new_v4) index now s known in
          (
            p.update_id,
            same ∙ ap (λ q. pending q) (cc is_p),
            ap
                  (λ r.
                    (handle_get_update heed json path_of no_faults Queue.no_faults index p.update_id
                      r.1).0)
                  ends
                ∙ get_update-loaded (register at).1 p.update_id s'
                    (ap (λ f. f index) loaded ∙ is_loaded)
                    (ap (λ (x : Store heed M N E). record x { files = s'.files })
                      (set_same at.store index s'))
                    found
                ∙ ap (λ x. ok x) (sym same),
          )
