-- ===== src/UpdateActor/Settled.antt =====
-- The way of an update from its registration to its result,
-- meilisearch-http/src/index_controller/update_actor.rs and update_store.rs.
use transplant.Base.{
  ℕ, Option, ◌≡◌, ◌≢◌, sym, subst, ap, ◌∙◌, inl, inr, none, some, List, arith, String,
  if◌then◌else◌, ◌==◌,
}
use transplant.Base.Outcome.{Outcome, ok}
use transplant.Heed.{Heed}
use transplant.Heed.Keys.{nat_key}
use transplant.Updates.{Uuid, DateTime, UpdateStatus, Pending, pending}
use transplant.UpdateStore as Queue
use transplant.UpdateStore.{Content, Store, Tables, register_update}
use transplant.UpdateStore.Register.{next_id, register_update-ok}
use transplant.UpdateStore.Invariant.{IsConsistent}
use transplant.UpdateStore.Consistency.{register_update-IsConsistent}
use transplant.UpdateStore.Process.Drain.{HasFiles}
use transplant.UpdateActor.{
  UpdateError, error, store_error, Faults, Json, State, Chunk, get_or_create, handle_update, opened,
  empty_tables,
}
use transplant.UpdateActor.RoundTrip.{
  IsReady, get_or_create-store, get_or_create-IsReady, handle_update-registered, map_err-ok,
  ok_injective, set_same,
}

module _ (heed : Heed nat_key) {M N E : Type 0} where
  -- The store of the index with the files of the actor.
  abbrev pub store_at : Uuid → State heed M N E → Store heed M N E
  store_at index st = record (st.store index) { files = st.files }

  -- No update that waits in the store has this content file.
  abbrev pub IsUnqueued : String → Store heed M N E → Type 0
  IsUnqueued path s = (k : ℕ) → heed.get s.env.pending k ≢ some path

  -- A registration of a file that is there.
  HasFiles-enqueue :
      (fault : Queue.Faults) (m : M) (path : String) (index : Uuid) (now : DateTime)
      (s : Store heed M N E) {p : Pending M}
      → HasFiles heed s
      → IsUnqueued path s
      → s.files path ≢ none
      → (register_update heed fault m path index now s).0 ≡ ok p
      → HasFiles heed (register_update heed fault m path index now s).1
  HasFiles-enqueue fault m path index now s h fresh there e =
      let (_, after) = register_update-ok heed fault m path index now s e in
      let id = next_id heed s.env in
      let at : (k : ℕ)
          → heed.get (heed.put s.env.pending id path) k
            ≡ (if id == k then some path else heed.get s.env.pending k) =
        λ k. heed.get-put s.env.pending id k path in
      subst (HasFiles heed) (sym after) (record {
        is_file = λ k q g n.
            let g' : heed.get (heed.put s.env.pending id path) k ≡ some q = g in
            ground (arith, at k, g', n, there, h.is_file k q);
        own_file = λ i j q f g.
            let f' : heed.get (heed.put s.env.pending id path) i ≡ some q = f in
            let g' : heed.get (heed.put s.env.pending id path) j ≡ some q = g in
            ground (arith, at i, at j, f', g', fresh i, fresh j, h.own_file i j q);
      })

  -- Opening the store again, over its tables or over new ones, leaves every waiting update its file.
  module _ (json : Json) (path_of : Uuid → String) (fault : Faults) (index : Uuid) where
    get_or_create-files :
        (st : State heed M N E)
        → (get_or_create heed json path_of fault index st).1.files ≡ st.files
    unfolding get_or_create
    get_or_create-files st = ground arith

    -- A store whose waiting updates have their files, none of them this one.
    abbrev IsWaiting : String → Store heed M N E → Type 0
    IsWaiting path s = HasFiles heed s × IsUnqueued path s

    IsWaiting-opened :
        (path : String) (st : State heed M N E)
        → IsWaiting path (store_at index st)
        → IsWaiting path
            (record (opened heed json path_of (st.store index).env) { files = st.files })
    IsWaiting-opened path st (h, fresh) =
        (record { is_file = h.is_file; own_file = h.own_file }, fresh)

    IsWaiting-empty :
        (path : String) (files : String → Option Content)
        → IsWaiting path
            (record (opened heed json path_of (empty_tables heed json path_of)) { files = files })
    IsWaiting-empty path files = (
      record {
        is_file = λ k q e. absurd (cc (heed.get-empty String k, e));
        own_file = λ i j q e. absurd (cc (heed.get-empty String i, e));
      },
      λ k e. cc (heed.get-empty String k, e),
    )

    get_or_create-IsWaiting :
        (path : String) (st : State heed M N E)
        → IsWaiting path (store_at index st)
        → IsWaiting path (store_at index (get_or_create heed json path_of fault index st).1)
    get_or_create-IsWaiting path st h =
        let s' = (get_or_create heed json path_of fault index st).1 in
        let with_files : Store heed M N E → Store heed M N E = λ s. record s { files = st.files } in
        let same : store_at index s' ≡ with_files (s'.store index) =
          ap (λ (f : String → Option Content). record (s'.store index) { files = f })
            (get_or_create-files st) in
        subst (IsWaiting path) (sym same)
          (elim (get_or_create-store heed json path_of fault index st) [
            | inl e ↦ subst (λ s. IsWaiting path (with_files s)) (sym e) h
            | inr (inl e) ↦
                subst (λ s. IsWaiting path (with_files s)) (sym e) (IsWaiting-opened path st h)
            | inr (inr e) ↦
                subst (λ s. IsWaiting path (with_files s)) (sym e) (IsWaiting-empty path st.files)
          ])

    module _ (stored : Queue.Faults) (meta_of : M) (payload : List Chunk) (new_v4 : Uuid)
        (now : DateTime) (st : State heed M N E) where
      -- After a registration that returns, the store of the index is consistent, the waiting updates
      -- have their files, and the update is among them.
      pub handle_update-waits :
          {status : UpdateStatus M N E}
          → IsReady heed (st.store index)
          → HasFiles heed (store_at index st)
          → IsUnqueued (path_of new_v4) (store_at index st)
          → (handle_update heed json path_of fault stored index meta_of payload new_v4 now st).0
            ≡ ok status
          → let s' =
              store_at index
                (handle_update heed json path_of fault stored index meta_of payload new_v4 now
                  st).1 in
            (p : Pending M) × (status ≡ pending p)
            × IsConsistent heed s'
            × HasFiles heed s'
            × (heed.get s'.env.pending_meta p.update_id ≢ none)
      handle_update-waits ready files fresh h =
          let path = path_of new_v4 in
          let (at, p, (_, _, stores), ran, ends, _, grows, there) =
            handle_update-registered heed json path_of fault index stored meta_of payload new_v4 now
              st h in
          let s = store_at index at in
          let s' = (register_update heed stored meta_of path index now s).1 in
          let known = map_err-ok (λ e. error (store_error e)) _ ran in
          let s₁ = (get_or_create heed json path_of fault index st).1 in
          let env_at : s.env ≡ (s₁.store index).env =
            ap (λ (f : Uuid → Store heed M N E). (f index).env) stores in
          let (r₁, room) =
            subst (IsReady heed) (sym (ap (λ (f : Uuid → Store heed M N E). f index) stores))
              (get_or_create-IsReady heed json path_of fault index st ready) in
          let c : IsConsistent heed s = record {
            tables = r₁.tables;
            current_first = r₁.current_first;
          } in
          let (h₁, f₁) = get_or_create-IsWaiting path st (files, fresh) in
          let queued = λ (k : ℕ) (q : String) (e : heed.get s.env.pending k ≡ some q).
            ap (λ (t : Tables heed M N E). heed.get t.pending k) (sym env_at) ∙ e in
          let done =
            HasFiles-enqueue stored meta_of path index now s
              (record {
                is_file = λ k q e. grows q (h₁.is_file k q (queued k q e));
                own_file = λ i j q e e'. h₁.own_file i j q (queued i q e) (queued j q e');
              })
              (λ k e. f₁ k (queued k path e)) there known in
          let good = register_update-IsConsistent heed stored meta_of path index now s room c in
          let (is_p, after) = register_update-ok heed stored meta_of path index now s known in
          let ends' : s'
              ≡ store_at index
                  (handle_update heed json path_of fault stored index meta_of payload new_v4 now
                    st).1 =
            sym (
              ap
                (λ (r : Outcome UpdateError (UpdateStatus M N E) × State heed M N E).
                  store_at index r.1)
                ends
              ∙ ap (λ (x : Store heed M N E). record x { files = s'.files })
                  (set_same at.store index s')) in
          let here : heed.get s'.env.pending_meta p.update_id ≢ none = λ e.
            ground
              (arith, e, after, is_p, heed.get-put s.env.pending_meta p.update_id p.update_id p) in
          (
            p,
            ok_injective h (ap (λ r. r.0) ends),
            subst (IsConsistent heed) ends' good,
            subst (HasFiles heed) ends' done,
            subst (λ x. heed.get x.env.pending_meta p.update_id ≢ none) ends' here,
          )
