-- ===== src/UpdateActor/Tests.antt =====
-- Concrete messages to the actor of meilisearch-http/src/index_controller/update_actor.rs.
use transplant.Base.{ℕ, ◌≡◌, ◌⊎◌, refl, true, false, none, [], ◌∷◌, String}
use transplant.Base.Outcome.{ok}
use transplant.Heed.{Heed}
use transplant.Heed.Keys.{nat_key}
use transplant.Heed.Sorted.{sorted_heed}
use transplant.Updates.{Uuid}
use transplant.UpdateStore as Queue
use transplant.UpdateStore.{Content, new_update_id, register_update}
use transplant.UpdateActor.{
  Json, State, no_faults, bytes, opened, empty_tables, handle_update, handle_get_update,
  get_or_create, receive_payload, write_payload,
}
use transplant.UpdateActor.{check_payload, failed_join}
use transplant.UpdateActor.RoundTrip.{
  IsReady, opened-IsConsistent, empty-WellFormed, empty-HasRoom, handle_update-get,
}
use transplant.Updates.{Pending, UpdateStatus, pending, new_pending}
use transplant.UpdateActor.Refused.{handle_update-refused}
use transplant.UpdateStore.Register.{enqueue}

abbrev H : Heed nat_key
H = sorted_heed nat_key

abbrev json : Json
json = record { is_accepted = λ c. true; serde_error = λ c. none }

abbrev path_of : Uuid → String
path_of u = "update_file"

abbrev S : Type 0
S = State H String ℕ String

-- The directory of the index 7 is there, and its store is open.
abbrev start : S
start = record {
  loaded = λ u. true;
  dir_exists = λ u. true;
  store = λ u. opened H json path_of (empty_tables H json path_of);
  files = λ path. none;
}

-- The loops of the stores have exited.
abbrev ended : S
ended = record start {
  store =
      λ u. record (opened H json path_of (empty_tables H json path_of)) { loop_running = false };
}

handle_update-refused_example :
    let s' =
      (handle_update H json path_of no_faults Queue.no_faults 7 "meta"
        (bytes (91 ∷ 93 ∷ []) ∷ [])
        1
        10
        ended).1 in
    (s'.dir_exists 7 ≡ true)
    × (((s'.store 7).env ≡ (ended.store 7).env)
        ⊎ ((◌≡◌ {A = Uuid} 7 7)
            × (failed_join "Update store loop exited." ≡ failed_join "Update store loop exited.")
            × (p : Pending String) × ((s'.store 7).env
                ≡ enqueue H (ended.store 7).env p (path_of 1))))
unfolding handle_update get_or_create receive_payload write_payload check_payload register_update
    new_update_id
handle_update-refused_example =
    handle_update-refused H json path_of no_faults Queue.no_faults 7 "meta"
      (bytes (91 ∷ 93 ∷ []) ∷ []) 1 10 ended (failed_join "Update store loop exited.") refl 7 refl

start-IsReady : IsReady H (start.store 7)
start-IsReady = (
  opened-IsConsistent H json path_of (empty_tables H json path_of)
      (empty-WellFormed H json path_of),
  empty-HasRoom H {E = String} (empty_tables H json path_of) refl refl refl,
)

abbrev first : Pending String
first = record { update_id = 0; meta = "meta"; enqueued_at = 10; index_uuid = 7 }

handle_update-get_example :
    let st' =
      (handle_update H json path_of no_faults Queue.no_faults 7 "meta"
        (bytes (91 ∷ 93 ∷ []) ∷ [])
        1
        10
        start).1 in
    (id : ℕ) × (◌≡◌ {A = UpdateStatus String ℕ String}
      (pending first)
      (pending (new_pending "meta" id 7 10)))
    × ((handle_get_update H json path_of no_faults Queue.no_faults 7 id st').0 ≡ ok (pending first))
unfolding handle_update get_or_create receive_payload write_payload check_payload register_update
    new_update_id
handle_update-get_example =
    handle_update-get H json path_of no_faults 7 Queue.no_faults "meta" (bytes (91 ∷ 93 ∷ []) ∷ [])
      1 10 start {status = pending first} start-IsReady refl
