-- ===== src/IndexController/LoopTests.antt =====
-- An update that is registered and that the loop gives to the actor of the indexes
-- (meilisearch-http/src/index_controller/update_actor.rs).
use transplant.Base.{length, List, ◌∷◌, ◌<◌, ℕ, ◌≡◌, ◌≢◌, ◌⊎◌, refl, none, [], String, arith}
use transplant.Base.Actor.{Actor}
use transplant.UpdateStore as Queue
use transplant.UpdateStore.{Store, register_update, new_update_id}
use transplant.UpdateStore.Process.{drain, waiting}
use transplant.UpdateStore.Process.Drain.{HasFiles, IsSettled}
use transplant.IndexActor as Indexing
use transplant.IndexActor.{Meta, State, clear_documents}
use transplant.IndexController.Processing.{serve_update, IsAnswering}
use transplant.IndexController.Settled.{handle_update-settles}
use transplant.UpdateActor as Updating
use transplant.UpdateActor.{Chunk, bytes}
use transplant.UpdateActor.Settled.{store_at}
use transplant.Updates.{Pending, UpdateStatus, pending}
use transplant.IndexController.Tests.{engine, world, start, start-IsReady}

engine-IsAnswering : IsAnswering world.queue engine (λ c. c) (λ e. "error")
unfolding Indexing.run_update
engine-IsAnswering meta file i m e = ground (arith, e)

abbrev indexes : ℕ → Actor (State engine)
indexes i = start.indexes

abbrev payload : List Chunk
payload = bytes (91 ∷ 93 ∷ []) ∷ []

abbrev registered : Updating.State world.queue (Meta engine) ℕ String
registered =
    (Updating.handle_update world.queue world.json world.path_of Updating.no_faults Queue.no_faults
      5 clear_documents payload 1 10 start.updates.state).1

abbrev first : Pending (Meta engine)
first = record { update_id = 0; meta = clear_documents; enqueued_at = 10; index_uuid = 5 }

start-HasFiles : HasFiles world.queue (store_at world.queue 5 start.updates.state)
start-HasFiles = record {
  is_file = λ k path e. absurd (cc (world.queue.get-empty String k, e));
  own_file = λ i j path e. absurd (cc (world.queue.get-empty String i, e));
}

is_one : length (world.queue.iter (store_at world.queue 5 registered).env.pending_meta) < 2
unfolding Updating.handle_update Updating.get_or_create Updating.receive_payload
    Updating.write_payload Updating.check_payload register_update new_update_id
is_one = omega arith

handle_update-settles_example :
    (p : Pending (Meta engine)) × (s' : Store world.queue (Meta engine) ℕ String) × (◌≡◌
      {A = UpdateStatus (Meta engine) ℕ String}
      (pending first)
      (pending p))
    × (drain world.queue 2
          (λ i. Queue.no_faults)
          (λ i.
            serve_update world.queue engine
              (λ c. c)
              (λ e. "error")
              Indexing.no_faults
              i
              (indexes i))
          (λ i. i)
          (store_at world.queue 5 registered)
        ≡ waiting s')
    × (world.queue.iter s'.env.pending_meta ≡ [])
    × IsSettled world.queue s'.env p.update_id
    × ((k : ℕ)
        → (world.queue.get (store_at world.queue 5 registered).env.pending_meta k ≢ none)
          ⊎ IsSettled world.queue (store_at world.queue 5 registered).env k
        → IsSettled world.queue s'.env k)
unfolding Updating.handle_update Updating.get_or_create Updating.receive_payload
    Updating.write_payload Updating.check_payload register_update new_update_id
handle_update-settles_example =
    handle_update-settles world.queue engine (λ c. c) (λ e. "error") world.json world.path_of
      Updating.no_faults 5 Queue.no_faults clear_documents payload 1 10 start.updates.state
      {status = pending first} 2 indexes (λ i. i) (start-IsReady 5) start-HasFiles
      (λ k e. cc (world.queue.get-empty String k, e)) refl engine-IsAnswering (λ i. refl) is_one
