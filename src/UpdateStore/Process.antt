-- ===== src/UpdateStore/Process.antt =====
-- `process_pending_update` and the loop that `open` spawns,
-- meilisearch-http/src/index_controller/update_store.rs. The two halves of the function are apart,
-- since no transaction is open for writing while the handler runs and other calls can come between.
pub mod Effect
pub mod Consistency
pub mod Drain
pub mod Stuck
use transplant.Base.{
  ℕ, zero, suc, Bool, true, false, Option, none, some, ◌⊎◌, inl, inr, if◌then◌else◌, String, str_eq,
}
use transplant.Base.Outcome.{Outcome, ok, err, panicked, expect}
use transplant.Base.Exec.{Exec, ◌>>=◌, ◌>>◌, pure, lift, gets, modify, attempt}
use transplant.Heed.{Heed}
use transplant.Heed.Keys.{nat_key}
use transplant.Updates.{Pending, Processing, Processed, Failed, DateTime, start}
use transplant.UpdateStore.{
  Error, io_error, Content, Call, Faults, Tables, Store, begin, commit_tables, read_txn, write_txn,
  first_pending, get_pending, open_file, delete_pending_meta, remove_file, delete_pending,
  put_processed, put_failed,
}

-- `HandleUpdate::handle_update`: the user's function, which may also fail or panic as a whole.
abbrev pub Handler : Type 0 → Type 0 → Type 0 → Type 0
Handler M N E = Processing M → Content → Outcome Error (Processed M N ⊎ Failed M E)

-- The update that is being processed: its key, its content's path and what the handler returned.
pub record InFlight (M N E : Type 0) : Type 0 where
  pub first_id : ℕ
  pub content_path : String
  pub result : Processed M N ⊎ Failed M E

-- What the rounds of a loop lead to: it waits for the next notification, it goes on when they are
-- used up, or a panic has ended its task.
pub data Loop (S : Type 0) : Type 0 where
  waiting running exited : S → Loop S

-- The file system without one file.
abbrev pub unlink : String → (String → Option Content) → String → Option Content
unlink path files p = if str_eq path p then none else files p

module _ (heed : Heed nat_key) where
  open heed use {put, get, first, delete}

  module _ {M N E : Type 0} where
    abbrev pub open_content : Faults → String → Exec (Store heed M N E) Error Content
    open_content fault path = do
      attempt (fault open_file)
      found ← gets (λ s. s.files path)
      elim found [ none ↦ lift (err (io_error "No such file or directory")) | some c ↦ pure c ]

    abbrev pub remove_content : Faults → String → Exec (Store heed M N E) Error (Unit {0})
    remove_content fault path = do
      attempt (fault remove_file)
      found ← gets (λ s. s.files path)
      elim found [
        | none ↦ lift (err (io_error "No such file or directory"))
        | some c ↦ modify (λ s. record s { files = unlink path s.files })
      ]

    -- From the content's lookup to the handler's return.
    pub process_first :
        Faults
        → Handler M N E
        → DateTime
        → Tables heed M N E
        → ℕ × Pending M
        → Exec (Store heed M N E) Error (Option (InFlight M N E))
    process_first fault handler now rtxn (first_id, p) = do
      attempt (fault get_pending)
      content_path ← lift (expect "associated update content" (get rtxn.pending first_id))
      let processing = start p now
      modify (λ s. record s { processing = some processing })
      file ← open_content fault content_path
      result ← lift (handler processing file)
      pure (some (record { first_id = first_id; content_path = content_path; result = result }))

    -- The reading half, up to the handler's return; `none` when there is no pending update.
    unfoldable pub take_first :
        Faults → Handler M N E → DateTime → Exec (Store heed M N E) Error (Option (InFlight M N E))
    unfolding begin process_first
    take_first fault handler now = do
      rtxn ← begin heed fault read_txn
      attempt (fault first_pending)
      elim (first rtxn.pending_meta) [
        | none ↦ pure none
        | some entry ↦ process_first fault handler now rtxn entry
      ]

    pub put_result :
        Faults
        → InFlight M N E
        → Tables heed M N E
        → Exec (Store heed M N E) Error (Tables heed M N E)
    put_result fault flight txn = elim flight.result [
      | inl done ↦ do
        attempt (fault put_processed)
        pure (record txn { processed_meta = put txn.processed_meta flight.first_id done })
      | inr broken ↦ do
        attempt (fault put_failed)
        pure (record txn { failed_meta = put txn.failed_meta flight.first_id broken })
    ]

    -- The writing half.
    unfoldable pub finish : Faults → InFlight M N E → Exec (Store heed M N E) Error (Unit {0})
    unfolding begin commit_tables put_result
    finish fault flight = do
      wtxn ← begin heed fault write_txn
      modify (λ s. record s { processing = none })
      attempt (fault delete_pending_meta)
      let wtxn' = record wtxn { pending_meta = delete wtxn.pending_meta flight.first_id }
      remove_content fault flight.content_path
      attempt (fault delete_pending)
      let wtxn'' = record wtxn' { pending = delete wtxn'.pending flight.first_id }
      wtxn''' ← put_result fault flight wtxn''
      commit_tables heed fault wtxn'''

    unfoldable pub process_pending_update :
        Faults → Handler M N E → DateTime → Exec (Store heed M N E) Error (Option (Unit {0}))
    process_pending_update fault handler now = do
      taken ← take_first fault handler now
      elim taken [ none ↦ pure none | some flight ↦ do finish fault flight; pure (some tt) ]

    -- The `match` of the loop's body: nothing pending ends the loop, an error is printed and the loop
    -- goes on, a panic ends the task.
    abbrev pub after_round :
        Outcome Error (Option (Unit {0})) × Store heed M N E
        → (Store heed M N E → Loop (Store heed M N E))
        → Loop (Store heed M N E)
    after_round (ok none, s) again = waiting s
    after_round (ok (some _), s) again = again s
    after_round (err e, s) again = again s
    after_round (panicked m, s) again = exited s

    -- The inner loop of the task that `open` spawns. Round n has the faults `fault n`, the handler
    -- `handler n` and the clock `now n`.
    pub drain :
        ℕ
        → (ℕ → Faults)
        → (ℕ → Handler M N E)
        → (ℕ → DateTime)
        → Store heed M N E
        → Loop (Store heed M N E)
    drain zero fault handler now s = running s
    drain (suc n) fault handler now s =
        after_round (process_pending_update (fault n) (handler n) (now n) s)
          (drain n fault handler now)
