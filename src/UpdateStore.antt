-- ===== src/UpdateStore.antt =====
-- The durable queue of one index's updates, meilisearch-http/src/index_controller/update_store.rs.
-- A function takes `fault`, which says of each call of the store or of the file system whether it
-- fails; a write transaction is a copy of the tables that `commit` puts back, so an early return
-- drops it. The clock's reading and the handler are arguments.
pub mod Process
pub mod Read
pub mod Abort
pub mod Register
pub mod Invariant
pub mod Preserve
pub mod Consistency
pub mod System
pub mod Spec
pub mod Stages
pub mod Refinement
pub mod Outcomes
pub mod Reuse
pub mod Listing
pub mod Reading
mod Tests
use transplant.Base.{
  ℕ, suc, ◌+◌, ◌%◌, ◌^◌, ◌≡◌, Bool, true, false, Option, none, some, List, [], ◌∷◌, ◌++◌, ◌⊎◌, inl,
  inr, map, if◌then◌else◌, ◌==◌, ltb, leb, drop, String,
}
use transplant.Base.Outcome.{Outcome, ok, err, panicked, expect}
use transplant.Base.Exec.{Exec, ◌>>=◌, ◌>>◌, pure, lift, gets, modify, attempt}
use transplant.Heed.{Heed}
use transplant.Heed.Keys.{nat_key}
use transplant.Updates.{
  Pending, Processing, Processed, Aborted, Failed, UpdateStatus, pending, processing, processed,
  aborted, failed, DateTime, Uuid, new_pending, start, abort, processing_id, status_id,
}

-- What `anyhow::Error` can hold here: an error of the store, of the file system or of the handler.
pub data Error : Type 0 where
  heed_error io_error handler_error : String → Error

-- The content of an update file, as bytes.
abbrev pub Content : Type 0
Content = List ℕ

-- The calls that can fail; those in a loop carry the key that they are made for.
pub data Call : Type 0 where
  write_txn read_txn commit : Call
  last_pending last_processed last_aborted first_pending iter_pending : Call
  iter_aborted iter_processed iter_failed : Call
  get_meta get_pending put_pending_meta put_pending : Call
  get_processed get_aborted get_failed : Call
  delete_pending_meta delete_pending put_processed put_failed put_aborted : Call
  open_file remove_file : Call
  read_pending read_aborted read_processed read_failed : ℕ → Call
  put_aborted_at delete_meta_at delete_pending_at : ℕ → Call

abbrev pub Faults : Type 0
Faults = Call → Option Error

abbrev pub no_faults : Faults
no_faults c = none

-- The biggest of the keys that are there: `iter().copied().flatten().max()`.
pub biggest : List (Option ℕ) → Option ℕ
biggest [] = none
biggest (none ∷ l) = biggest l
biggest (some k ∷ l) = elim (biggest l) [ none ↦ some k | some m ↦ some (if leb k m then m else k) ]

module _ (heed : Heed nat_key) where
  open heed use {Database, get, put, delete, iter, first, last}

  -- The five databases of the environment.
  pub record Tables (M N E : Type 0) : Type 0 where
    pub pending_meta : Database (Pending M)
    pub pending : Database String
    pub processed_meta : Database (Processed M N)
    pub failed_meta : Database (Failed M E)
    pub aborted_meta : Database (Aborted M)

  -- `env` is what the last commit left; `processing` is not durable; `files` is the part of the
  -- file system that holds update contents; `notifications` counts the messages that the loop's
  -- channel has taken, and `loop_running` says that its receiver lives.
  pub record Store (M N E : Type 0) : Type 0 where
    pub env : Tables M N E
    pub processing : Option (Processing M)
    pub files : String → Option Content
    pub notifications : ℕ
    pub loop_running : Bool

  pub last_key : {V : Type 0} → Database V → Option ℕ
  last_key d = elim (last d) [ none ↦ none | some e ↦ some e.0 ]

  module _ {M N E : Type 0} where
    -- A write transaction starts from the committed tables; `commit_tables` makes its copy durable.
    pub begin : Faults → Call → Exec (Store M N E) Error (Tables M N E)
    begin fault c = do attempt (fault c); gets (λ s. s.env)

    pub commit_tables : Faults → Tables M N E → Exec (Store M N E) Error (Unit {0})
    commit_tables fault txn = do attempt (fault commit); modify (λ s. record s { env = txn })

    -- Returns the new biggest id to use to store the new update; the sum is on 64 bits.
    unfoldable pub new_update_id : Faults → Tables M N E → Exec (Store M N E) Error ℕ
    unfolding last_key biggest
    new_update_id fault txn = do
      attempt (fault last_pending)
      attempt (fault last_processed)
      attempt (fault last_aborted)
      let last_update_id =
          biggest (
            last_key txn.pending_meta
            ∷ last_key txn.processed_meta
            ∷ last_key txn.aborted_meta
            ∷ [])
      pure (elim last_update_id [ some last_id ↦ (last_id + 1) % 2 ^ 64 | none ↦ 0 ])

    -- `blocking_send(()).expect(..)`: a full channel makes the sender wait, so what is left is
    -- whether the loop still runs.
    pub notify : Exec (Store M N E) Error (Unit {0})
    notify s =
        if s.loop_running
        then (ok tt, record s { notifications = s.notifications + 1 })
        else (panicked "Update store loop exited.", s)

    unfoldable pub register_update :
        Faults → M → String → Uuid → DateTime → Exec (Store M N E) Error (Pending M)
    unfolding begin commit_tables notify
    register_update fault meta content index_uuid now = do
      wtxn ← begin fault write_txn
      update_id ← new_update_id fault wtxn
      let meta = new_pending meta update_id index_uuid now
      attempt (fault put_pending_meta)
      let wtxn' = record wtxn { pending_meta = put wtxn.pending_meta update_id meta }
      attempt (fault put_pending)
      let wtxn'' = record wtxn' { pending = put wtxn'.pending update_id content }
      commit_tables fault wtxn''
      notify
      pure meta
