-- ===== src/IndexController/Settled.antt =====
-- The whole way of an update: the actor of the updates registers it, the loop of its store hands it
-- to the actor of the indexes (meilisearch-http/src/index_controller/update_actor.rs and
-- update_store.rs).
use transplant.Base.{ℕ, List, ◌<◌, ◌≡◌, ◌≢◌, ◌⊎◌, true, none, [], length, inl, String}
use transplant.Base.Outcome.{Outcome, ok}
use transplant.Base.Actor.{Actor}
use transplant.Heed.{Heed}
use transplant.Heed.Keys.{nat_key}
use transplant.Updates.{Uuid, DateTime, UpdateStatus, Pending, pending}
use transplant.UpdateStore as Queue
use transplant.UpdateStore.{Store}
use transplant.UpdateStore.Process.{drain, waiting}
use transplant.UpdateStore.Process.Drain.{HasFiles, IsSettled}
use transplant.UpdateActor as Updating
use transplant.UpdateActor.{Json, Chunk}
use transplant.UpdateActor.RoundTrip.{IsReady}
use transplant.UpdateActor.Settled.{store_at, IsUnqueued, handle_update-waits}
use transplant.IndexActor as Indexing
use transplant.IndexActor.{Engine, IndexError, Meta}
use transplant.IndexController.Processing.{serve_update, IsAnswering, drain-serves}

module _ (heed : Heed nat_key) (engine : Engine) (from_file : Queue.Content → engine.Content)
    (to_text : IndexError → String) (json : Json) (path_of : Uuid → String) where
  module _ (fault : Updating.Faults) (index : Uuid) (stored : Queue.Faults) (meta : Meta engine)
      (payload : List Chunk) (new_v4 : Uuid) (at : DateTime)
      (st : Updating.State heed (Meta engine) engine.UpdateResult String) where
    abbrev registration :
        Outcome Updating.UpdateError (UpdateStatus (Meta engine) engine.UpdateResult String)
        × Updating.State heed (Meta engine) engine.UpdateResult String
    registration =
        Updating.handle_update heed json path_of fault stored index meta payload new_v4 at st

    -- The store of the index after the registration.
    abbrev queue : Store heed (Meta engine) engine.UpdateResult String
    queue = store_at heed index registration.1

    -- Take an index whose store is consistent, has room for one more id, and keeps a content file of
    -- its own for every pending update, none of them the file of the new update. When a registration
    -- in it returns, it returns a pending update; and when the loop of the store then has more rounds
    -- than there are pending updates, with the actor of the indexes as its handler, in whatever state
    -- it runs when each round asks it, with an engine that does not panic and no call failing, the
    -- loop ends, nothing is pending, and the update is processed or failed, and so is every other that
    -- was pending, processed or failed.
    pub handle_update-settles :
        {status : UpdateStatus (Meta engine) engine.UpdateResult String} (n : ℕ)
        (actor : ℕ → Actor (Indexing.State engine)) (now : ℕ → DateTime)
        → IsReady heed (st.store index)
        → HasFiles heed (store_at heed index st)
        → IsUnqueued heed (path_of new_v4) (store_at heed index st)
        → registration.0 ≡ ok status
        → IsAnswering heed engine from_file to_text
        → ((i : ℕ) → (actor i).running ≡ true)
        → length (heed.iter queue.env.pending_meta) < n
        → (p : Pending (Meta engine)) × (s' : Store heed (Meta engine) engine.UpdateResult String)
          × (status ≡ pending p)
          × (drain heed n
                (λ i. Queue.no_faults)
                (λ i.
                  serve_update heed engine from_file to_text Indexing.no_faults (now i) (actor i))
                now
                queue
              ≡ waiting s')
          × (heed.iter s'.env.pending_meta ≡ [])
          × IsSettled heed s'.env p.update_id
          × ((k : ℕ)
              → (heed.get queue.env.pending_meta k ≢ none) ⊎ IsSettled heed queue.env k
              → IsSettled heed s'.env k)
    handle_update-settles n actor now ready files fresh h answers runs l =
        let (p, e, good, there, waits) =
          handle_update-waits heed json path_of fault index stored meta payload new_v4 at st ready
            files fresh h in
        let (s', ends, empty, settled) =
          drain-serves heed engine from_file to_text n queue actor now answers runs good there l in
        (p, s', e, ends, empty, settled p.update_id (inl waits), settled)
