-- ===== src/UpdateStore/Preserve.antt =====
-- The three changes that the calls of a store make to its tables, and that each keeps them well
-- formed: an update is queued, an update is finished, an update is aborted.
use transplant.Base.{ℕ, ◌≡◌, none, some, String, arith, ◌⊎◌, inl, inr}
use transplant.Heed.{Heed}
use transplant.Heed.Keys.{nat_key}
use transplant.Updates.{Pending, Processed, Aborted, Failed, processed_id, aborted_id, failed_id}
use transplant.UpdateStore.{Tables}
use transplant.UpdateStore.Register.{enqueue}
use transplant.UpdateStore.Abort.{move_aborted}
use transplant.UpdateStore.Invariant.{WellFormed}

abbrev pub result_id : {M N E : Type 0} → Processed M N ⊎ Failed M E → ℕ
result_id (inl done) = processed_id done
result_id (inr broken) = failed_id broken

module _ (heed : Heed nat_key) {M N E : Type 0} where
  open heed use {get, put, delete, get-put, get-delete}

  -- What `finish` commits.
  abbrev pub complete : Tables heed M N E → ℕ → Processed M N ⊎ Failed M E → Tables heed M N E
  complete t id (inl done) = record t {
    pending_meta = delete t.pending_meta id;
    pending = delete t.pending id;
    processed_meta = put t.processed_meta id done;
  }
  complete t id (inr broken) = record t {
    pending_meta = delete t.pending_meta id;
    pending = delete t.pending id;
    failed_meta = put t.failed_meta id broken;
  }

  pub enqueue-WellFormed :
      (t : Tables heed M N E) (p : Pending M) (content : String)
      → get t.processed_meta p.update_id ≡ none
      → get t.aborted_meta p.update_id ≡ none
      → WellFormed heed t
      → WellFormed heed (enqueue heed t p content)
  enqueue-WellFormed t p content not_processed not_aborted w =
      let id = p.update_id in
      let at_meta = λ (k : ℕ). get-put t.pending_meta id k p in
      let at_content = λ (k : ℕ). get-put t.pending id k content in
      record {
        pending_keyed = λ k q h. ground (arith, at_meta k, w.pending_keyed k q);
        processed_keyed = w.processed_keyed;
        aborted_keyed = w.aborted_keyed;
        failed_keyed = w.failed_keyed;
        content_kept = λ k h. ground (arith, at_meta k, at_content k, w.content_kept k);
        content_dropped = λ k h. ground (arith, at_meta k, at_content k, w.content_dropped k);
        pending_apart = λ k q h. ground (arith, at_meta k, w.pending_apart k q);
        processed_apart = w.processed_apart;
      }

  pub move_aborted-WellFormed :
      (t : Tables heed M N E) (id : ℕ) (a : Aborted M) (p : Pending M)
      → aborted_id a ≡ id
      → get t.pending_meta id ≡ some p
      → WellFormed heed t
      → WellFormed heed (move_aborted heed t (id, a))
  move_aborted-WellFormed t id a p own was_pending w =
      let at_meta = λ (k : ℕ). get-delete t.pending_meta id k in
      let at_content = λ (k : ℕ). get-delete t.pending id k in
      let at_aborted = λ (k : ℕ). get-put t.aborted_meta id k a in
      record {
        pending_keyed = λ k q h. ground (arith, at_meta k, w.pending_keyed k q);
        processed_keyed = w.processed_keyed;
        aborted_keyed = λ k q h. ground (arith, at_aborted k, w.aborted_keyed k q);
        failed_keyed = w.failed_keyed;
        content_kept = λ k h. ground (arith, at_meta k, at_content k, w.content_kept k);
        content_dropped = λ k h. ground (arith, at_meta k, at_content k, w.content_dropped k);
        pending_apart = λ k q h. ground (arith, at_meta k, at_aborted k, w.pending_apart k q);
        processed_apart = λ k q h.
            ground (arith, at_aborted k, w.processed_apart k q, w.pending_apart id p was_pending);
      }

  pub complete-WellFormed :
      (t : Tables heed M N E) (id : ℕ) (r : Processed M N ⊎ Failed M E) (p : Pending M)
      → result_id r ≡ id
      → get t.pending_meta id ≡ some p
      → WellFormed heed t
      → WellFormed heed (complete t id r)
  complete-WellFormed t id (inl done) p own was_pending w =
      let at_meta = λ (k : ℕ). get-delete t.pending_meta id k in
      let at_content = λ (k : ℕ). get-delete t.pending id k in
      let at_done = λ (k : ℕ). get-put t.processed_meta id k done in
      record {
        pending_keyed = λ k q h. ground (arith, at_meta k, w.pending_keyed k q);
        processed_keyed = λ k q h. ground (arith, at_done k, w.processed_keyed k q);
        aborted_keyed = w.aborted_keyed;
        failed_keyed = w.failed_keyed;
        content_kept = λ k h. ground (arith, at_meta k, at_content k, w.content_kept k);
        content_dropped = λ k h. ground (arith, at_meta k, at_content k, w.content_dropped k);
        pending_apart = λ k q h. ground (arith, at_meta k, at_done k, w.pending_apart k q);
        processed_apart = λ k q h.
            ground (arith, at_done k, w.processed_apart k q, w.pending_apart id p was_pending);
      }
  complete-WellFormed t id (inr broken) p own was_pending w =
      let at_meta = λ (k : ℕ). get-delete t.pending_meta id k in
      let at_content = λ (k : ℕ). get-delete t.pending id k in
      let at_broken = λ (k : ℕ). get-put t.failed_meta id k broken in
      record {
        pending_keyed = λ k q h. ground (arith, at_meta k, w.pending_keyed k q);
        processed_keyed = w.processed_keyed;
        aborted_keyed = w.aborted_keyed;
        failed_keyed = λ k q h. ground (arith, at_broken k, w.failed_keyed k q);
        content_kept = λ k h. ground (arith, at_meta k, at_content k, w.content_kept k);
        content_dropped = λ k h. ground (arith, at_meta k, at_content k, w.content_dropped k);
        pending_apart = λ k q h. ground (arith, at_meta k, w.pending_apart k q);
        processed_apart = w.processed_apart;
      }
