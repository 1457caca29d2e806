-- ===== src/UpdateStore/Invariant.antt =====
-- The invariant of an update store between two calls,
-- meilisearch-http/src/index_controller/update_store.rs.
use transplant.Base.{ℕ, ◌≡◌, Option, none, some}
use transplant.Heed.{Heed}
use transplant.Heed.Keys.{nat_key}
use transplant.Updates.{
  Pending, Processing, Processed, Aborted, Failed, processing_id, processed_id, aborted_id,
  failed_id,
}
use transplant.UpdateStore.{Tables, Store}

module _ (heed : Heed nat_key) {M N E : Type 0} where
  open heed use {get, first}

  -- Each row stands under its update's id; the two pending tables have the same keys; and no id
  -- is in two of the pending, the processed and the aborted tables.
  pub record WellFormed (t : Tables heed M N E) : Type 0 where
    pub pending_keyed : (k : ℕ) (p : Pending M) → get t.pending_meta k ≡ some p → p.update_id ≡ k
    pub processed_keyed :
        (k : ℕ) (p : Processed M N) → get t.processed_meta k ≡ some p → processed_id p ≡ k
    pub aborted_keyed : (k : ℕ) (p : Aborted M) → get t.aborted_meta k ≡ some p → aborted_id p ≡ k
    pub failed_keyed : (k : ℕ) (p : Failed M E) → get t.failed_meta k ≡ some p → failed_id p ≡ k
    pub content_kept : (k : ℕ) → get t.pending k ≡ none → get t.pending_meta k ≡ none
    pub content_dropped : (k : ℕ) → get t.pending_meta k ≡ none → get t.pending k ≡ none
    pub pending_apart :
        (k : ℕ) (p : Pending M)
        → get t.pending_meta k ≡ some p
        → (get t.processed_meta k ≡ none) × (get t.aborted_meta k ≡ none)
    pub processed_apart :
        (k : ℕ) (p : Processed M N) → get t.processed_meta k ≡ some p → get t.aborted_meta k ≡ none

  -- What is marked as being processed is still the first pending update.
  abbrev pub IsFirst : Option (Processing M) → Tables heed M N E → Type 0
  IsFirst now t =
      (q : Processing M) → now ≡ some q → first t.pending_meta ≡ some (processing_id q, q.from)

  pub record IsConsistent (s : Store heed M N E) : Type 0 where
    pub tables : WellFormed s.env
    pub current_first : IsFirst s.processing s.env

  -- The changes that leave the first pending update in its place.
  abbrev pub KeepsFirst : Tables heed M N E → Tables heed M N E → Type 0
  KeepsFirst t t' =
      (k : ℕ) (p : Pending M)
      → first t.pending_meta ≡ some (k, p)
      → first t'.pending_meta ≡ some (k, p)

  pub KeepsFirst-IsFirst :
      (t t' : Tables heed M N E) (now : Option (Processing M))
      → KeepsFirst t t'
      → IsFirst now t
      → IsFirst now t'
  KeepsFirst-IsFirst t t' now keeps h q is_q = keeps (processing_id q) q.from (h q is_q)
