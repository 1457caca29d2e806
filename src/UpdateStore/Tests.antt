-- ===== src/UpdateStore/Tests.antt =====
-- Concrete runs of the queue of meilisearch-http/src/index_controller/update_store.rs on the sorted
-- listing that meets the store's interface.
mod Rounds
use transplant.Base.{
  ℕ, zero, suc, ◌+◌, ◌<◌, ◌≤◌, ◌^◌, ◌≡◌, ◌≢◌, refl, sym, ap, Bool, true, false, Option, none, some,
  List, [], ◌∷◌, arith, ◌⊎◌, inl, inr, String, str_eq, if◌then◌else◌, ◌==◌,
}
use transplant.Base.Outcome.{Outcome, ok, err, panicked}
use transplant.Heed.{Heed}
use transplant.Heed.Keys.{nat_key}
use transplant.Heed.Sorted.{sorted_heed}
use transplant.Updates.{
  Pending, Processing, Processed, Failed, Aborted, UpdateStatus, pending, processing, processed,
  new_pending, process, fail,
}
use transplant.UpdateStore.{
  Error, io_error, handler_error, Content, Call, Faults, no_faults, Tables, Store, register_update,
  commit, new_update_id,
}
use transplant.UpdateStore.Process.{Handler}
use transplant.UpdateStore.Register.{
  enqueue, HasRoom, IsUsed, next_id, lt-next_id, register_update-atomic,
}
use transplant.UpdateStore.Invariant.{WellFormed, IsConsistent}
use transplant.UpdateStore.Consistency.{register_update-IsConsistent}
use transplant.UpdateStore.Spec.{Moves}
use transplant.UpdateStore.Abort.{abort_update}
use transplant.UpdateStore.Stages.{view}
use transplant.UpdateStore.Refinement.{Reach-Moves, Reach-final}
use transplant.Updates.{Processed, Aborted}
use transplant.UpdateStore.System.{
  System, IsSound, Reach, here, next, with_store, register, abort_one, restart, Reach-IsSound,
}
use transplant.UpdateStore.Outcomes.{register_update-rows, rows}

abbrev pub H : Heed nat_key
H = sorted_heed nat_key

abbrev pub Q : Type 0
Q = Store H String ℕ String

abbrev pub no_tables : Tables H String ℕ String
no_tables = record {
  pending_meta = H.empty (Pending String);
  pending = H.empty String;
  processed_meta = H.empty (Processed String ℕ);
  failed_meta = H.empty (Failed String String);
  aborted_meta = H.empty (Aborted String);
}

abbrev files : String → Option Content
files path =
    if str_eq path "a" then some (1 ∷ []) else if str_eq path "b" then some (2 ∷ []) else none

abbrev pub fresh : Q
fresh = record {
  env = no_tables;
  processing = none;
  files = files;
  notifications = 0;
  loop_running = true;
}

abbrev pub p0 : Pending String
p0 = record { update_id = 0; meta = "first"; enqueued_at = 10; index_uuid = 7 }

abbrev pub p1 : Pending String
p1 = record { update_id = 1; meta = "second"; enqueued_at = 11; index_uuid = 7 }

-- The stores after one and after two registrations.
abbrev pub one : Q
one = record fresh { env = enqueue H no_tables p0 "a"; notifications = 1 }

abbrev pub two : Q
two = record one { env = enqueue H one.env p1 "b"; notifications = 2 }

pub first_registration : register_update H no_faults "first" "a" 7 10 fresh ≡ (ok p0, one)
unfolding register_update new_update_id
first_registration = refl

pub second_registration : register_update H no_faults "second" "b" 7 11 one ≡ (ok p1, two)
unfolding register_update new_update_id
second_registration = refl

pub room_fresh : HasRoom H fresh.env
room_fresh k (inl h) = absurd (h refl)
room_fresh k (inr (inl h)) = absurd (h refl)
room_fresh k (inr (inr h)) = absurd (h refl)

pub room_one : HasRoom H one.env
room_one k (inl h) = ground (arith, h)
room_one k (inr (inl h)) = absurd (h refl)
room_one k (inr (inr h)) = absurd (h refl)

pub IsConsistent-fresh : IsConsistent H fresh
IsConsistent-fresh = record {
  tables = record {
    pending_keyed = λ k p e. cc e;
    processed_keyed = λ k p e. cc e;
    aborted_keyed = λ k p e. cc e;
    failed_keyed = λ k p e. cc e;
    content_kept = λ k e. refl;
    content_dropped = λ k e. refl;
    pending_apart = λ k p e. cc e;
    processed_apart = λ k p e. cc e;
  };
  current_first = λ q e. cc e;
}

pub IsConsistent-one : IsConsistent H one
IsConsistent-one =
    rw (sym (ap (λ r. r.1) first_registration)) (
      register_update-IsConsistent H no_faults "first" "a" 7 10 fresh room_fresh IsConsistent-fresh)

pub IsConsistent-two : IsConsistent H two
IsConsistent-two =
    rw (sym (ap (λ r. r.1) second_registration))
      (register_update-IsConsistent H no_faults "second" "b" 7 11 one room_one IsConsistent-one)

abbrev start_system : System H String ℕ String
start_system = record { store = fresh; flight = none }

IsSound-start : IsSound H String ℕ String start_system
IsSound-start = record { consistent = IsConsistent-fresh; flying = λ f e. cc e }

Reach-IsSound_example : IsSound H String ℕ String (
    with_store H String ℕ String start_system
      (register_update H no_faults "first" "a" 7 10 fresh).1)
Reach-IsSound_example =
    Reach-IsSound H String ℕ String IsSound-start
      (next here (register start_system no_faults "first" "a" 7 10 room_fresh))

abbrev one_registered : System H String ℕ String
one_registered =
    with_store H String ℕ String start_system (register_update H no_faults "first" "a" 7 10 fresh).1

Reach-Moves_example :
    Moves String ℕ String (view H start_system.store.env) (view H one_registered.store.env)
Reach-Moves_example =
    Reach-Moves H IsSound-start
      (next here (register start_system no_faults "first" "a" 7 10 room_fresh))

-- The second of two updates was aborted.
abbrev two_registered : System H String ℕ String
two_registered = record { store = two; flight = none }

abbrev second_aborted : System H String ℕ String
second_aborted = with_store H String ℕ String two_registered (abort_update H no_faults 13 1 two).1

IsSound-second_aborted : IsSound H String ℕ String second_aborted
IsSound-second_aborted =
    Reach-IsSound H String ℕ String {a = two_registered}
      (record { consistent = IsConsistent-two; flying = λ f e. cc e })
      (next here (abort_one two_registered no_faults 13 1))

abbrev reopened : System H String ℕ String
reopened = record { store = record second_aborted.store { processing = none }; flight = none }

Reach-final_example :
    (view H reopened.store.env 1).stage ≡ (view H second_aborted.store.env 1).stage
unfolding abort_update
Reach-final_example =
    Reach-final H {x = second_aborted} {y = reopened} IsSound-second_aborted
      (next here (restart second_aborted)) 1 tt

abbrev pub full : Error
full = io_error "No space left on device"

abbrev broken_commit : Faults
broken_commit commit = some full
broken_commit _ = none

register_update-rows_example :
    let t = (register_update H no_faults "second" "b" 7 11 one).1.env in
    (rows H one.env 1
      ≡ record { row_pending = none; row_processed = none; row_aborted = none; row_failed = none })
    × (p1 ≡ new_pending "second" 1 7 11)
    × ((k : ℕ)
        → rows H t k ≡ (
            if 1 == k
            then record (rows H one.env k) { row_pending = some p1 }
            else rows H one.env k))
    × ((k : ℕ) → H.get t.pending k ≡ (if 1 == k then some "b" else H.get one.env.pending k))
register_update-rows_example =
    register_update-rows H no_faults "second" "b" 7 11 one {p = p1} room_one
      (ap (λ r. r.0) second_registration)

-- The handlers that succeed and that fail.
abbrev pub succeeding : Handler String ℕ String
succeeding q c = ok (inl (process q 3 20))

abbrev pub failing : Handler String ℕ String
failing q c = ok (inr (fail q "bad" 20))
