-- ===== src/IndexController/Deletion.antt =====
-- What is left of an index after `delete_index`, and what the other methods answer for a name that
-- does not exist, meilisearch-http/src/index_controller/mod.rs.
use transplant.Base.{
  ℕ, ◌≡◌, refl, ap, ◌∙◌, true, false, Option, none, List, String, arith, inl, inr,
}
use transplant.Base.Outcome.{ok, err, Outcome-cases}
use transplant.Base.Exec.{Exec, ◌>>=◌}
use transplant.Heed.Keys.{Text}
use transplant.Updates.{Uuid}
use transplant.UpdateStore as Queue
use transplant.UuidResolver as Names
use transplant.UuidResolver.{UuidError, unexisting_index}
use transplant.UpdateActor as Updating
use transplant.IndexActor as Indexing
use transplant.UuidResolver.Laws.{delete-get}
use transplant.IndexActor.Laws.{handle_delete-get_meta}
use transplant.UpdateActor.Refused.{handle_delete-get}
use transplant.IndexController.{
  Error, of_uuid, World, Call, Controller, get_uuid, delete_index, clear_documents_of,
  delete_documents_of, update_settings,
}
use transplant.IndexController.Queries.{
  get_index, update_status, all_update_status, settings, documents, document, search, update_index,
}

module _ (world : World) where
  open world use {names, queue, uuids, json, path_of, engine}

  delete_index-ok :
      (c : Call) (uid : Text) (s : Controller world)
      → (delete_index world c uid s).0 ≡ ok tt
      → let s' = (delete_index world c uid s).1 in
        (id : Uuid) × ((Names.handle_delete names uuids c.resolving uid s.resolver.state).0 ≡ ok id)
        × ((Updating.handle_delete queue json path_of c.updating id s.updates.state).0 ≡ ok tt)
        × ((Indexing.handle_delete engine c.indexing id s.indexes.state).0 ≡ ok tt)
        × (s'.resolver.state ≡ (Names.handle_delete names uuids c.resolving uid s.resolver.state).1)
        × (s'.updates.state
            ≡ (Updating.handle_delete queue json path_of c.updating id s.updates.state).1)
        × (s'.indexes.state ≡ (Indexing.handle_delete engine c.indexing id s.indexes.state).1)
  unfolding delete_index
  delete_index-ok c uid s h =
      elim (Outcome-cases (Names.handle_delete names uuids c.resolving uid s.resolver.state).0) [
        | inl (id, gone) ↦ (
          id,
          gone,
          ground (arith, h, gone),
          ground (arith, h, gone),
          ground (arith, h, gone),
          ground (arith, h, gone),
          ground (arith, h, gone),
        )
        | inr (inl (e, fails)) ↦ absurd (ground (arith, h, fails))
        | inr (inr (p, fails)) ↦ absurd (ground (arith, h, fails))
      ]

  -- When the deletion of an index returns, the name had stood for a uuid; afterwards the name is
  -- unknown, and so are the updates and the metadata under that uuid, whatever fails then.
  pub delete_index-gone :
      (c : Call) (uid : Text) (s : Controller world)
      → (delete_index world c uid s).0 ≡ ok tt
      → let s' = (delete_index world c uid s).1 in
        (id : Uuid) × ((Names.handle_get names uuids Names.no_faults uid s.resolver.state).0
          ≡ ok id)
        × ((Names.handle_get names uuids Names.no_faults uid s'.resolver.state).0
            ≡ err (unexisting_index uid))
        × ((fault : Updating.Faults) (stored : Queue.Faults) (k : ℕ)
            → (Updating.handle_get_update queue json path_of fault stored id k s'.updates.state).0
              ≡ err (Updating.unexisting_index id))
        × ((fault : Indexing.Faults)
            → (Indexing.handle_get_meta engine fault id s'.indexes.state).0
              ≡ err Indexing.unexisting_index)
  delete_index-gone c uid s h =
      let (id, gone, left, removed, after_names, after_updates, after_indexes) =
        delete_index-ok c uid s h in
      let (known, unknown, others) = delete-get names uuids c.resolving uid s.resolver.state gone in
      (
        id,
        known,
        ap (λ d. (Names.handle_get names uuids Names.no_faults uid d).0) after_names ∙ unknown,
        λ fault stored k.
            ap (λ d. (Updating.handle_get_update queue json path_of fault stored id k d).0)
              after_updates
            ∙ handle_delete-get queue json path_of c.updating fault stored id k s.updates.state
                left,
        λ fault.
            ap (λ d. (Indexing.handle_get_meta engine fault id d).0) after_indexes
            ∙ handle_delete-get_meta engine c.indexing fault id s.indexes.state removed,
      )

  -- The answer to a method for a name that does not exist: the resolver's error, with the queues and
  -- the indexes as they were.
  abbrev pub IsRefused :
      {A : Type 0} → Text → Exec (Controller world) Error A → Controller world → Type 0
  IsRefused uid method s =
      ((method s).0 ≡ err (of_uuid (unexisting_index uid)))
      × ((method s).1.updates ≡ s.updates)
      × ((method s).1.indexes ≡ s.indexes)

  get_uuid-IsRefused :
      (c : Call) (uid : Text) (s : Controller world)
      → s.resolver.running ≡ true
      → (Names.handle_get names uuids c.resolving uid s.resolver.state).0
        ≡ err (unexisting_index uid)
      → IsRefused uid (get_uuid world c uid) s
  unfolding get_uuid
  get_uuid-IsRefused c uid s runs missing = (ground (arith, runs, missing), refl, refl)

  bind-IsRefused :
      {A B : Type 0} (uid : Text) (m : Exec (Controller world) Error A)
      (f : A → Exec (Controller world) Error B) (s : Controller world)
      → IsRefused uid m s
      → IsRefused uid (m >>= f) s
  bind-IsRefused uid m f s h = (ground (arith, h), ground (arith, h), ground (arith, h))

  -- When the resolver runs and answers that a name does not exist, these methods answer that too, and
  -- change no queue and no index: the clearing and the deletion of documents, a change of settings that
  -- is not to create the index, the status of one update and of all, the settings, the documents and one
  -- document, an update of the index that gives no new name, the search, and the lookup of the index.
  pub unknown-IsRefused :
      (c : Call) (uid : Text) (s : Controller world)
      → s.resolver.running ≡ true
      → (Names.handle_get names uuids c.resolving uid s.resolver.state).0
        ≡ err (unexisting_index uid)
      → IsRefused uid (clear_documents_of world c uid) s
        × ((ids : List String) → IsRefused uid (delete_documents_of world c uid ids) s)
        × ((changed : engine.Settings)
            → IsRefused uid (update_settings world c uid changed false) s)
        × ((k : ℕ) → IsRefused uid (update_status world c uid k) s)
        × IsRefused uid (all_update_status world c uid) s
        × IsRefused uid (settings world c uid) s
        × ((offset limit : ℕ) (attributes : Option (List String))
            → IsRefused uid (documents world c uid offset limit attributes) s)
        × ((id : String) (attributes : Option (List String))
            → IsRefused uid (document world c uid id attributes) s)
        × ((key : Option String)
            → IsRefused uid (update_index world c uid (record { uid = none; primary_key = key })) s)
        × ((query : engine.Query) → IsRefused uid (search world c uid query) s)
        × IsRefused uid (get_index world c uid) s
  unfolding clear_documents_of delete_documents_of update_settings update_status all_update_status
      settings documents document update_index search get_index
  unknown-IsRefused c uid s runs missing =
      let first = get_uuid-IsRefused c uid s runs missing in
      (
        bind-IsRefused uid (get_uuid world c uid) _ s first,
        λ ids. bind-IsRefused uid (get_uuid world c uid) _ s first,
        λ changed. (
          ground (arith, runs, missing),
          ground (arith, runs, missing),
          ground (arith, runs, missing),
        ),
        λ k. bind-IsRefused uid (get_uuid world c uid) _ s first,
        bind-IsRefused uid (get_uuid world c uid) _ s first,
        bind-IsRefused uid (get_uuid world c uid) _ s first,
        λ offset limit attributes. bind-IsRefused uid (get_uuid world c uid) _ s first,
        λ id attributes. bind-IsRefused uid (get_uuid world c uid) _ s first,
        λ key. bind-IsRefused uid (get_uuid world c uid) _ s first,
        λ query. bind-IsRefused uid (get_uuid world c uid) _ s first,
        bind-IsRefused uid (get_uuid world c uid) _ s first,
      )
