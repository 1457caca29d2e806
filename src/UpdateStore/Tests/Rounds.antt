-- ===== src/UpdateStore/Tests/Rounds.antt =====
-- Concrete rounds, abortions and listings of the queue of
-- meilisearch-http/src/index_controller/update_store.rs.
use transplant.Base.{
  ℕ, ◌≤◌, ◌≡◌, ◌≢◌, refl, sym, subst, none, some, List, [], ◌∷◌, drop, arith, ◌⊎◌, inl, inr, String,
  if◌then◌else◌, In, ◌==◌,
}
use transplant.Base.Outcome.{Outcome, ok, err}
use transplant.Updates.{
  Processing, Processed, Failed, UpdateStatus, pending, processing_id, start, abort, process, fail,
}
use transplant.UpdateStore.{Error, Faults, no_faults, Store, register_update, commit, new_update_id}
use transplant.UpdateStore.Process.{InFlight, finish, drain, waiting, running}
use transplant.UpdateStore.Process.Effect.{finish-err}
use transplant.UpdateStore.Process.Drain.{HasFiles, IsSettled, drain-empties}
use transplant.UpdateStore.Process.Stuck.{IsStuck, drain-IsStuck}
use transplant.UpdateStore.Abort.{abort_update, abort_pendings, collect, move_all, commit_aborted}
use transplant.UpdateStore.Abort.Rows.{chosen, aborted_rows, kept_path, abort_pendings-rows}
use transplant.UpdateStore.Abort.Effect.{aborted_entries}
use transplant.UpdateStore.Outcomes.{rows, finished_rows, finish-rows, abort_update-rows}
use transplant.UpdateStore.Invariant.{IsConsistent}
use transplant.UpdateStore.Register.{IsUsed}
use transplant.UpdateStore.Preserve.{result_id}
use transplant.UpdateStore.Reuse.{failed-reused}
use transplant.UpdateStore.Read.{list, meta, stored_meta}
use transplant.UpdateStore.Listing.{meta-In-list}
use transplant.UpdateStore.Tests.{
  H, Q, one, two, p0, p1, full, succeeding, IsConsistent-one, IsConsistent-two,
}

-- The first update has been handled, with either result, and is being finished.
abbrev flight : InFlight String ℕ String
flight = record { first_id = 0; content_path = "a"; result = inl (process (start p0 12) 3 20) }

abbrev bad_flight : InFlight String ℕ String
bad_flight = record { first_id = 0; content_path = "a"; result = inr (fail (start p0 12) "bad" 20) }

abbrev no_commit : Faults
no_commit transplant.UpdateStore.commit = some full
no_commit _ = none

finish-rows_example :
    rows H (finish H no_faults flight two).1.env 0
    ≡ finished_rows H (rows H two.env 0) flight.result
unfolding finish
finish-rows_example = finish-rows H no_faults flight two refl 0

finish-err_example : (finish H no_commit flight two).1.env ≡ two.env
unfolding finish
finish-err_example = finish-err H no_commit flight two {e = full} refl

abbrev marked : Q
marked = record two { processing = some (start p0 12) }

IsConsistent-marked : IsConsistent H marked
IsConsistent-marked = record {
  tables = IsConsistent-two.tables;
  current_first = λ q e. ground arith;
}

abort_update-rows_example :
    (H.get two.env.pending_meta 1 ≡ some p1)
    × ((k : ℕ)
        → rows H (abort_update H no_faults 13 1 two).1.env k ≡ (
            if 1 == k
            then record (rows H two.env k) { row_pending = none; row_aborted = some (abort p1 13) }
            else rows H two.env k))
unfolding abort_update
abort_update-rows_example = abort_update-rows H no_faults 13 1 two {a = abort p1 13} refl

abort_pendings-rows_example :
    let s' = (abort_pendings H no_faults (λ i. 13) two).1 in
    ((1, abort p1 13) ∷ [] ≡ aborted_entries (λ i. 13) (drop 1 (H.iter two.env.pending_meta)))
    × ((k : ℕ)
        → (rows H s'.env k ≡ aborted_rows H (rows H two.env k) (chosen H two k) 13)
          × (H.get s'.env.pending k ≡ kept_path (H.get two.env.pending k) (chosen H two k)))
    × (s' ≡ record two { env = s'.env })
unfolding abort_pendings collect move_all commit_aborted
abort_pendings-rows_example =
    abort_pendings-rows H no_faults (λ i. 13) two {l = (1, abort p1 13) ∷ []} refl

file_a : (path : String) → path ≡ "a" → one.files path ≢ none
file_a path e n = cc (subst (λ p. one.files p ≡ none) e n)

-- The handler's result bears the update's id.
own_id :
    (q : Processing String) (r : Processed String ℕ ⊎ Failed String String)
    → ◌≡◌ {A = Outcome Error (Processed String ℕ ⊎ Failed String String)}
        (ok (inl (process q 3 20)))
        (ok r)
    → result_id r ≡ processing_id q
own_id q (inl p) e = let same : process q 3 20 ≡ p = ground (arith, e) in rw (sym same) refl
own_id q (inr p) e = cc e

used_one : (k : ℕ) → IsUsed H one.env k → k ≤ 0
used_one k (inl h) = ground (arith, h)
used_one k (inr (inl h)) = absurd (h refl)
used_one k (inr (inr h)) = absurd (h refl)

files_one : HasFiles H one
files_one = record {
  is_file = λ k path e n. file_a path (ground (arith, e)) n;
  own_file = λ i j path e f. ground (arith, e, f);
}

drain-empties_example :
    (s' : Q) × (drain H 2 (λ i. no_faults) (λ i. succeeding) (λ i. 12) one ≡ waiting s')
    × (H.iter s'.env.pending_meta ≡ [])
    × ((k : ℕ)
        → (H.get one.env.pending_meta k ≢ none) ⊎ IsSettled H one.env k
        → IsSettled H s'.env k)
drain-empties_example =
    drain-empties H (λ i. succeeding) (λ i. 12) (λ i q c. (inl (process q 3 20), refl))
      (λ i q c r e. own_id q r e) 2 one IsConsistent-one files_one (omega arith)

drain-IsStuck_example :
    (s' : Q) × (drain H 9 (λ i. no_faults) (λ i q c. err full) (λ i. 12) one ≡ running s')
    × IsStuck H 0 p0 "a" (1 ∷ []) s'
drain-IsStuck_example =
    drain-IsStuck H 0 p0 "a" (1 ∷ []) (λ i. no_faults) (λ i q c. err full) (λ i. 12) full
      (λ i t. refl) 9 one (record { is_first = refl; is_queued = refl; is_there = refl })

failed-reused_example : 0 ≤ 0
unfolding finish register_update new_update_id
failed-reused_example =
    failed-reused H no_faults no_faults bad_flight (fail (start p0 12) "bad" 20) one "next" "b" 7 21
      {p = record { update_id = 0; meta = "next"; enqueued_at = 21; index_uuid = 7 }} refl refl
      used_one (refl, refl) (omega arith) refl

meta-In-list_example :
    (l : List (UpdateStatus String ℕ String)) × ((list H no_faults two).0 ≡ ok l)
    × In (pending p1) l
unfolding meta stored_meta
meta-In-list_example = meta-In-list H two 1 {u = pending p1} IsConsistent-two.tables refl
