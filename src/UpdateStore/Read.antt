-- ===== src/UpdateStore/Read.antt =====
-- `list` and `meta`, meilisearch-http/src/index_controller/update_store.rs.
use transplant.Base.{
  ℕ, Bool, true, not, Option, none, some, List, [], ◌∷◌, ◌++◌, map, if◌then◌else◌, ◌==◌, leb,
}
use transplant.Base.Exec.{Exec, ◌>>=◌, ◌>>◌, pure, gets, attempt}
use transplant.Heed.{Heed}
use transplant.Heed.Keys.{nat_key}
use transplant.Updates.{
  Pending, Processing, UpdateStatus, processing, pending, processed, aborted, failed, processing_id,
  status_id,
}
use transplant.UpdateStore.{
  Error, Call, Faults, Tables, Store, begin, read_txn, iter_pending, iter_aborted, iter_processed,
  iter_failed, read_pending, read_aborted, read_processed, read_failed, get_meta, get_processed,
  get_aborted, get_failed,
}

-- `iter().filter_map(Result::ok).map(|(_, p)| p)`: an entry that cannot be read is left out.
abbrev pub readable : {V : Type 0} → Faults → (ℕ → Call) → List (ℕ × V) → List V
readable fault c [] = []
readable fault c ((k, v) ∷ l) =
    let rest = readable fault c l in elim (fault (c k)) [ none ↦ v ∷ rest | some e ↦ rest ]

-- `Some(id) != processing.as_ref().map(|p| p.id())`.
abbrev pub differs : {M : Type 0} → Option (Processing M) → ℕ → Bool
differs none id = true
differs (some q) id = not (id == processing_id q)

-- The pending updates, less the one that is being processed.
abbrev pub waiting : {M : Type 0} → Option (Processing M) → List (Pending M) → List (Pending M)
waiting now [] = []
waiting now (p ∷ l) = let rest = waiting now l in if differs now p.update_id then p ∷ rest else rest

module _ {M N E : Type 0} where
  abbrev pub current : Option (Processing M) → List (UpdateStatus M N E)
  current none = []
  current (some q) = processing q ∷ []

  -- `sort_by_key(|u| u.id())`, a stable sort.
  unfoldable pub insert_status :
      UpdateStatus M N E → List (UpdateStatus M N E) → List (UpdateStatus M N E)
  insert_status u [] = u ∷ []
  insert_status u (v ∷ l) =
      let rest = insert_status u l in
      if leb (status_id u) (status_id v) then u ∷ v ∷ l else v ∷ rest

  unfoldable pub sort_statuses : List (UpdateStatus M N E) → List (UpdateStatus M N E)
  unfolding insert_status
  sort_statuses [] = []
  sort_statuses (u ∷ l) = insert_status u (sort_statuses l)

module _ (heed : Heed nat_key) where
  open heed use {get, iter}

  module _ {M N E : Type 0} where
    unfoldable pub list : Faults → Exec (Store heed M N E) Error (List (UpdateStatus M N E))
    unfolding begin
    list fault = do
      rtxn ← begin heed fault read_txn
      now ← gets (λ s. s.processing)
      attempt (fault iter_pending)
      let pendings =
          map pending (waiting now (readable fault read_pending (iter rtxn.pending_meta)))
      attempt (fault iter_aborted)
      let aborteds = map aborted (readable fault read_aborted (iter rtxn.aborted_meta))
      attempt (fault iter_processed)
      let processeds = map processed (readable fault read_processed (iter rtxn.processed_meta))
      attempt (fault iter_failed)
      let faileds = map failed (readable fault read_failed (iter rtxn.failed_meta))
      pure (sort_statuses (current now ++ (pendings ++ (aborteds ++ (processeds ++ faileds)))))

    -- The four lookups of `meta`, in the order of the source.
    unfoldable pub stored_meta :
        Faults → Tables heed M N E → ℕ → Exec (Store heed M N E) Error (Option (UpdateStatus M N E))
    stored_meta fault rtxn key = do
      attempt (fault get_meta)
      elim (get rtxn.pending_meta key) [
        | some p ↦ pure (some (pending p))
        | none ↦ do
          attempt (fault get_processed)
          elim (get rtxn.processed_meta key) [
            | some p ↦ pure (some (processed p))
            | none ↦ do
              attempt (fault get_aborted)
              elim (get rtxn.aborted_meta key) [
                | some p ↦ pure (some (aborted p))
                | none ↦ do
                  attempt (fault get_failed)
                  elim (get rtxn.failed_meta key) [
                    | some p ↦ pure (some (failed p))
                    | none ↦ pure none
                  ]
              ]
          ]
      ]

    unfoldable pub meta : Faults → ℕ → Exec (Store heed M N E) Error (Option (UpdateStatus M N E))
    unfolding begin stored_meta
    meta fault update_id = do
      rtxn ← begin heed fault read_txn
      now ← gets (λ s. s.processing)
      let stored = stored_meta fault rtxn update_id
      elim now [
        | none ↦ stored
        | some q ↦ if processing_id q == update_id then pure (some (processing q)) else stored
      ]
