-- ===== src/UpdateStore/Abort.antt =====
-- `abort_update` and `abort_pendings`, meilisearch-http/src/index_controller/update_store.rs.
pub mod Effect
pub mod Consistency
pub mod Rows
use transplant.Base.{
  ℕ, Bool, true, false, Option, none, some, List, [], ◌∷◌, map, if◌then◌else◌, ◌==◌, drop,
}
use transplant.Base.Exec.{Exec, ◌>>=◌, ◌>>◌, pure, attempt}
use transplant.Heed.{Heed}
use transplant.Heed.Keys.{nat_key}
use transplant.Updates.{Pending, Aborted, DateTime, abort}
use transplant.UpdateStore.{
  Error, Faults, Tables, Store, begin, commit_tables, write_txn, first_pending, get_meta,
  put_aborted, delete_pending_meta, delete_pending, iter_pending, read_pending, put_aborted_at,
  delete_meta_at, delete_pending_at,
}

-- `first(..).map(|(key, _)| key.get()) == Some(update_id)`.
abbrev pub is_first : {V : Type 0} → Option (ℕ × V) → ℕ → Bool
is_first none update_id = false
is_first (some e) update_id = e.0 == update_id

module _ (heed : Heed nat_key) where
  open heed use {put, get, first, delete, iter}

  module _ {M N E : Type 0} where
    -- Moves one update from the pending tables to the aborted one.
    abbrev pub move_aborted : Tables heed M N E → ℕ × Aborted M → Tables heed M N E
    move_aborted txn (id, aborted) = record txn {
      aborted_meta = put txn.aborted_meta id aborted;
      pending_meta = delete txn.pending_meta id;
      pending = delete txn.pending id;
    }

    pub abort_found :
        Faults
        → DateTime
        → ℕ
        → Tables heed M N E
        → Pending M
        → Exec (Store heed M N E) Error (Option (Aborted M))
    abort_found fault now key wtxn p = do
      let aborted = abort p now
      attempt (fault put_aborted)
      attempt (fault delete_pending_meta)
      attempt (fault delete_pending)
      commit_tables heed fault (move_aborted wtxn (key, aborted))
      pure (some aborted)

    -- The first pending update is taken for the one that is being processed, and is not aborted.
    unfoldable pub abort_update :
        Faults → DateTime → ℕ → Exec (Store heed M N E) Error (Option (Aborted M))
    unfolding begin commit_tables abort_found
    abort_update fault now update_id = do
      wtxn ← begin heed fault write_txn
      attempt (fault first_pending)
      if is_first (first wtxn.pending_meta) update_id then pure none else do
        attempt (fault get_meta)
        elim (get wtxn.pending_meta update_id) [
          | none ↦ pure none
          | some p ↦ abort_found fault now update_id wtxn p
        ]

    -- The first loop of `abort_pendings`: an entry that cannot be read ends it.
    unfoldable pub collect :
        Faults
        → (ℕ → DateTime)
        → List (ℕ × Pending M)
        → Exec (Store heed M N E) Error (List (ℕ × Aborted M))
    collect fault now [] = pure []
    collect fault now ((id, p) ∷ l) = do
      attempt (fault (read_pending id))
      rest ← collect fault now l
      pure ((id, abort p (now id)) ∷ rest)

    -- The second loop: each aborted update is moved.
    unfoldable pub move_all :
        Faults
        → List (ℕ × Aborted M)
        → Tables heed M N E
        → Exec (Store heed M N E) Error (Tables heed M N E)
    move_all fault [] txn = pure txn
    move_all fault ((id, aborted) ∷ l) txn = do
      attempt (fault (put_aborted_at id))
      attempt (fault (delete_meta_at id))
      attempt (fault (delete_pending_at id))
      move_all fault l (move_aborted txn (id, aborted))

    -- From the second loop on.
    unfoldable pub commit_aborted :
        Faults
        → Tables heed M N E
        → List (ℕ × Aborted M)
        → Exec (Store heed M N E) Error (List (ℕ × Aborted M))
    unfolding commit_tables move_all
    commit_aborted fault wtxn aborted_updates = do
      wtxn' ← move_all fault aborted_updates wtxn
      commit_tables heed fault wtxn'
      pure aborted_updates

    unfoldable pub abort_pendings :
        Faults → (ℕ → DateTime) → Exec (Store heed M N E) Error (List (ℕ × Aborted M))
    unfolding begin
    abort_pendings fault now = do
      wtxn ← begin heed fault write_txn
      attempt (fault iter_pending)
      aborted_updates ← collect fault now (drop 1 (iter wtxn.pending_meta))
      commit_aborted fault wtxn aborted_updates
