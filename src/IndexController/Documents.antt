-- ===== src/IndexController/Documents.antt =====
-- What the registration of documents leaves behind, meilisearch-http/src/index_controller/mod.rs.
use transplant.Base.{
  ℕ, ◌≡◌, ◌≢◌, refl, sym, ap, ◌∙◌, true, false, Option, List, String, arith, ◌⊎◌, inl, inr,
}
use transplant.Base.Outcome.{Outcome, ok, err, panicked}
use transplant.Base.Exec.{Exec}
use transplant.Heed.Keys.{Text}
use transplant.Updates.{Uuid, pending, new_pending}
use transplant.UpdateStore as Queue
use transplant.UuidResolver as Names
use transplant.UuidResolver.{UuidError, unexisting_index, badly_formatted, is_index_uid_valid}
use transplant.UpdateActor as Updating
use transplant.UpdateActor.{Chunk}
use transplant.IndexActor.{documents_addition, Meta}
use transplant.UuidResolver.Laws.{
  handle_get-state, handle_get-quiet, IsForeign, handle_get-unexisting, insert-get,
}
use transplant.UpdateActor.RoundTrip.{IsReady, handle_update-get}
use transplant.IndexController.{
  Error, of_uuid, World, Call, Controller, Status, get_uuid, add_documents, queue_update,
  insert_name, register_new, resolved,
}
use transplant.IndexController.Queries.{update_status}
use transplant.IndexController.Laws.{quiet}

module _ (world : World) where
  open world use {names, queue, uuids, json, path_of, engine}

  -- The `match` goes on with a uuid, or with a name that does not exist.
  resolved-ok :
      {A : Type 0} (found : Uuid → Exec (Controller world) Error A)
      (missing : Text → Exec (Controller world) Error A) (r : Outcome UuidError Uuid)
      (s : Controller world) {a : A}
      → (resolved world found missing r s).0 ≡ ok a
      → ((id : Uuid) × (r ≡ ok id)) ⊎ ((name : Text) × (r ≡ err (unexisting_index name)))
  resolved-ok found missing (ok id) s h = inl (id, refl)
  resolved-ok found missing (err (unexisting_index name)) s h = inr (name, refl)
  resolved-ok found missing (err (badly_formatted name)) s h = absurd (cc h)
  resolved-ok found missing (err Names.name_already_exist) s h = absurd (cc h)
  resolved-ok found missing (err (Names.uuid e)) s h = absurd (cc h)
  resolved-ok found missing (err (Names.heed e)) s h = absurd (cc h)
  resolved-ok found missing (err (Names.tokio_task e)) s h = absurd (cc h)
  resolved-ok found missing (panicked m) s h = absurd (cc h)

  module _ (c : Call) (uid : Text) (method : engine.Method) (format : engine.Format)
      (payload : List Chunk) (key : Option String) (s : Controller world) where
    abbrev updating :
        Uuid
        → Exec
            (Updating.State queue (Meta engine) engine.UpdateResult String)
            Updating.UpdateError
            (Status world)
    updating id =
        Updating.handle_update queue json path_of c.updating c.storing id
          (documents_addition method format key) payload c.file_v4 c.now

    -- An addition that returns has registered an update for the uuid that the name has afterwards.
    add_documents-ok :
        {status : Status world}
        → (add_documents world c uid method format payload key s).0 ≡ ok status
        → IsForeign names uuids c.resolving
        → let s' = (add_documents world c uid method format payload key s).1 in
          (id : Uuid) × (s'.resolver.running ≡ true)
          × ((Names.handle_get names uuids Names.no_faults uid s'.resolver.state).0 ≡ ok id)
          × ((updating id s.updates.state).0 ≡ ok status)
          × (s'.updates ≡ record { running = true; state = (updating id s.updates.state).1 })
    unfolding add_documents register_new queue_update insert_name
    add_documents-ok h foreign =
        let before = s.resolver.state in
        let same = handle_get-state names uuids c.resolving uid before in
        let meta : Meta engine = documents_addition method format key in
        let (r, t) = Names.ask_get names uuids c.resolving uid s.resolver in
        elim (resolved-ok (queue_update world c meta payload) (register_new world c meta payload) r
          (record s { resolver = t }) h) [
            | inl (id, e) ↦
                let known : (Names.handle_get names uuids c.resolving uid before).0 ≡ ok id =
                  ground (arith, e) in
                (
                  id,
                  ground (arith, h, known),
                  ground (
                    arith,
                    h,
                    known,
                    same,
                    handle_get-quiet names uuids c.resolving uid before known,
                  ),
                  ground (arith, h, known),
                  ground (arith, h, known),
                )
            | inr (name, e) ↦
                let missing : (Names.handle_get names uuids c.resolving uid before).0
                    ≡ err (unexisting_index name) =
                  ground (arith, e) in
                let own =
                  handle_get-unexisting names uuids c.resolving uid name before foreign missing in
                let inserted : (Names.handle_insert names uuids c.inserting name c.new_v4 before).0
                    ≡ ok tt =
                  ground (arith, h, missing, same) in
                (
                  c.new_v4,
                  ground (arith, h, missing),
                  ground (
                    arith,
                    h,
                    missing,
                    same,
                    own,
                    insert-get names uuids c.inserting name c.new_v4 before inserted,
                  ),
                  ground (arith, h, missing),
                  ground (arith, h, missing),
                )
          ]

    -- When the addition of documents returns a status, the name stands for a uuid afterwards, and asking
    -- for the update of that name with the id of the status returns that status, no call failing then;
    -- the update is pending, for that uuid, with the given method, format and primary key. It is assumed that
    -- every update store is consistent and has room for one more id, and that the calls below the resolver
    -- do not fail with its own error for an unknown name.
    pub add_documents-update_status :
        {status : Status world}
        → (add_documents world c uid method format payload key s).0 ≡ ok status
        → IsForeign names uuids c.resolving
        → ((id : Uuid) → IsReady queue (s.updates.state.store id))
        → let s' = (add_documents world c uid method format payload key s).1 in
          (id : Uuid) × (k : ℕ) × ((Names.handle_get names uuids Names.no_faults uid
              s'.resolver.state).0
            ≡ ok id)
          × (status ≡ pending (new_pending (documents_addition method format key) k id c.now))
          × ((update_status world quiet uid k s').0 ≡ ok status)
    unfolding update_status get_uuid
    add_documents-update_status {status} h foreign ready =
        let (id, runs, known, registers, updates) = add_documents-ok h foreign in
        let (k, is_pending, found) =
          handle_update-get queue json path_of c.updating id c.storing
            (documents_addition method format key) payload c.file_v4 c.now s.updates.state
            (ready id) registers in
        let up = ap (λ a. a.running) updates in
        let asked =
          ap
            (λ a.
              (Updating.handle_get_update queue json path_of Updating.no_faults Queue.no_faults id k
                a.state).0)
            updates
          ∙ found in
        (id, k, known, is_pending, ground (arith, runs, known, up, asked))

    -- When documents are added under a name that does not exist and is badly formatted, and the
    -- registration of their update returns, the call is answered by the error for the name and the names
    -- stay as they were, but the update stays registered: under its id, asking the update actor for it by
    -- the uuid that was made for the name returns it, no call failing then. If no name stood for that uuid
    -- before, none does afterwards. It is assumed that the store of that uuid is consistent and has room
    -- for one more id.
    pub add_documents-orphan :
        {status : Status world}
        → s.resolver.running ≡ true
        → s.updates.running ≡ true
        → is_index_uid_valid uid ≡ false
        → (Names.handle_get names uuids c.resolving uid s.resolver.state).0
          ≡ err (unexisting_index uid)
        → IsReady queue (s.updates.state.store c.new_v4)
        → ((name : Text)
            → (Names.handle_get names uuids Names.no_faults name s.resolver.state).0 ≢ ok c.new_v4)
        → (updating c.new_v4 s.updates.state).0 ≡ ok status
        → let (r, s') = add_documents world c uid method format payload key s in
          (r ≡ err (of_uuid (badly_formatted uid)))
          × (s'.resolver.state ≡ s.resolver.state)
          × ((name : Text)
              → (Names.handle_get names uuids Names.no_faults name s'.resolver.state).0
                ≢ ok c.new_v4)
          × (k : ℕ) × (status
              ≡ pending (new_pending (documents_addition method format key) k c.new_v4 c.now))
          × ((Updating.handle_get_update queue json path_of Updating.no_faults Queue.no_faults
                c.new_v4 k s'.updates.state).0
              ≡ ok status)
    unfolding add_documents register_new queue_update insert_name Names.handle_insert
    add_documents-orphan runs up invalid missing ready unnamed registers =
        let same = handle_get-state names uuids c.resolving uid s.resolver.state in
        let (r, s') = add_documents world c uid method format payload key s in
        let kept : s'.resolver.state ≡ s.resolver.state =
          ground (arith, runs, up, invalid, missing, registers, same) in
        let updates : s'.updates.state ≡ (updating c.new_v4 s.updates.state).1 =
          ground (arith, runs, up, invalid, missing, registers) in
        let (k, is_pending, found) =
          handle_update-get queue json path_of c.updating c.new_v4 c.storing
            (documents_addition method format key) payload c.file_v4 c.now s.updates.state ready
            registers in
        (
          ground (arith, runs, up, invalid, missing, registers),
          kept,
          λ name e.
              unnamed name
                (ap (λ d. (Names.handle_get names uuids Names.no_faults name d).0) (sym kept) ∙ e),
          k,
          is_pending,
          ap
                (λ d.
                  (Updating.handle_get_update queue json path_of Updating.no_faults Queue.no_faults
                    c.new_v4 k d).0)
                updates
              ∙ found,
        )
