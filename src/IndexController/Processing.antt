-- ===== src/IndexController/Processing.antt =====
-- The loop of an update store with the actor of the indexes as its handler: the closure that
-- meilisearch-http/src/index_controller/update_actor.rs gives to `UpdateStore::open`.
use transplant.Base.{ℕ, ◌<◌, ◌≡◌, ◌≢◌, ◌⊎◌, inl, inr, true, none, refl, [], length, arith, String}
use transplant.Base.Outcome.{ok, panicked, map_err, Outcome-cases}
use transplant.Base.Actor.{Actor}
use transplant.Heed.{Heed}
use transplant.Heed.Keys.{nat_key}
use transplant.Updates.{
  DateTime, Processing, Processed, Failed, process, fail, processing_index_uuid,
}
use transplant.UpdateStore as Queue
use transplant.UpdateStore.{Store, handler_error}
use transplant.UpdateStore.Invariant.{IsConsistent}
use transplant.UpdateStore.Process.{Handler, drain, waiting}
use transplant.UpdateStore.Process.Consistency.{KeepsId}
use transplant.UpdateStore.Process.Drain.{HasFiles, IsTotal, IsSettled, drain-empties}
use transplant.IndexActor.{
  Engine, State, Faults, no_faults, IndexError, Meta, handle_update, run_update, conclude, get,
  create, open_index, set_primary_key,
}
use transplant.IndexActor.Laws.{handle_update-id}
use transplant.IndexActor.Messages.{ask_update}

module _ (heed : Heed nat_key) (engine : Engine) (from_file : Queue.Content → engine.Content)
    (to_text : IndexError → String) where
  abbrev Result : Type 0
  Result = Processed (Meta engine) engine.UpdateResult ⊎ Failed (Meta engine) String

  -- `index_handle.update(meta, file)`, where the actor is in this state; `from_file` is the file
  -- with this content.
  unfoldable pub serve_update :
      Faults → DateTime → Actor (State engine) → Handler (Meta engine) engine.UpdateResult String
  serve_update fault now actor meta file =
      map_err (λ e. handler_error (to_text e))
        (ask_update engine fault now meta (from_file file) actor).0

  serve_update-KeepsId :
      (fault : Faults) (now : DateTime) (actor : Actor (State engine))
      → KeepsId (serve_update fault now actor)
  unfolding serve_update
  serve_update-KeepsId fault now actor meta file r h =
      handle_update-id engine fault now meta (from_file file) actor.state {q = r}
        (ground (arith, h))

  -- The engine answers every update, with its result or with an error.
  abbrev pub IsAnswering : Type 0
  IsAnswering =
      (meta : Processing (Meta engine)) (file : engine.Content) (i : engine.Index) (m : String)
      → (run_update engine meta file i).0 ≢ panicked m

  module _ (answers : IsAnswering) where
    conclude-total :
        (now : DateTime) (meta : Processing (Meta engine)) (file : engine.Content)
        (i : engine.Index)
        → (q : Result) × (conclude engine meta now (run_update engine meta file i).0 ≡ ok q)
    conclude-total now meta file i = elim (Outcome-cases (run_update engine meta file i).0) [
      | inl (x, e) ↦ (inl (process meta x now), rw e refl)
      | inr (inl (x, e)) ↦ (inr (fail meta x now), rw e refl)
      | inr (inr (m, e)) ↦ absurd (answers meta file i m e)
    ]

    handle_update-total :
        (now : DateTime) (meta : Processing (Meta engine)) (file : engine.Content)
        (s : State engine)
        → (q : Result) × ((handle_update engine no_faults now meta file s).0 ≡ ok q)
    unfolding handle_update get create open_index set_primary_key
    handle_update-total now meta file s =
        let at = processing_index_uuid meta in
        let (q, e) = conclude-total now meta file (s.index at) in
        let (q', e') = conclude-total now meta file engine.new_index in
        elim (Outcome-cases (handle_update engine no_faults now meta file s).0) [
          | inl found ↦ found
          | inr (inl (x, h)) ↦ absurd (ground (arith, h, e, e'))
          | inr (inr (x, h)) ↦ absurd (ground (arith, h, e, e'))
        ]

    serve_update-IsTotal :
        (now : DateTime) (actor : Actor (State engine))
        → actor.running ≡ true
        → IsTotal heed (serve_update no_faults now actor)
    unfolding serve_update
    serve_update-IsTotal now actor runs meta file =
        let (q, e) = handle_update-total now meta (from_file file) actor.state in
        (q, ground (arith, runs, e))

  -- On a consistent store in which every pending update has a content file of its own, with the
  -- actor of the indexes as the handler, in whatever state it runs when each round asks it, with an
  -- engine that does not panic, no call failing and more rounds than there are pending updates, the loop
  -- ends, nothing is pending, and every update that was pending, processed or failed is processed
  -- or failed.
  pub drain-serves :
      (n : ℕ) (s : Store heed (Meta engine) engine.UpdateResult String)
      (actor : ℕ → Actor (State engine)) (now : ℕ → DateTime)
      → IsAnswering
      → ((i : ℕ) → (actor i).running ≡ true)
      → IsConsistent heed s
      → HasFiles heed s
      → length (heed.iter s.env.pending_meta) < n
      → (s' : Store heed (Meta engine) engine.UpdateResult String) × (drain heed n
            (λ i. Queue.no_faults)
            (λ i. serve_update no_faults (now i) (actor i))
            now
            s
          ≡ waiting s')
        × (heed.iter s'.env.pending_meta ≡ [])
        × ((k : ℕ)
            → (heed.get s.env.pending_meta k ≢ none) ⊎ IsSettled heed s.env k
            → IsSettled heed s'.env k)
  drain-serves n s actor now answers runs c h l =
      drain-empties heed (λ i. serve_update no_faults (now i) (actor i)) now
        (λ i. serve_update-IsTotal answers (now i) (actor i) (runs i))
        (λ i. serve_update-KeepsId no_faults (now i) (actor i)) n s c h l
