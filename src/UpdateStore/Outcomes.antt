-- ===== src/UpdateStore/Outcomes.antt =====
-- What a client finds in the tables after each call has returned,
-- meilisearch-http/src/index_controller/update_store.rs.
use transplant.Base.{
  ℕ, ◌≡◌, refl, ap, Option, none, some, String, arith, ◌⊎◌, inl, inr, ◌==◌, if◌then◌else◌,
}
use transplant.Base.Outcome.{ok}
use transplant.Heed.{Heed}
use transplant.Heed.Keys.{nat_key}
use transplant.Updates.{
  Pending, Processing, Processed, Aborted, Failed, Uuid, DateTime, processing_id, new_pending,
}
use transplant.UpdateStore.{Faults, Tables, Store, register_update}
use transplant.UpdateStore.Register.{register_update-ok, HasRoom, enqueue}
use transplant.UpdateStore.Abort.{abort_update}
use transplant.UpdateStore.Abort.Effect.{abort_update-some}
use transplant.UpdateStore.Process.{InFlight, finish}
use transplant.UpdateStore.Process.Effect.{finish-ok}
use transplant.UpdateStore.Invariant.{IsConsistent}
use transplant.UpdateStore.Consistency.{next_id-unused}
use transplant.UpdateStore.Preserve.{complete}

-- The rows of one id in the four tables of updates.
pub record Rows (M N E : Type 0) : Type 0 where
  pub row_pending : Option (Pending M)
  pub row_processed : Option (Processed M N)
  pub row_aborted : Option (Aborted M)
  pub row_failed : Option (Failed M E)

module _ (heed : Heed nat_key) {M N E : Type 0} where
  open heed use {get, first, get-put, get-delete}

  abbrev pub rows : Tables heed M N E → ℕ → Rows M N E
  rows t k = record {
    row_pending = get t.pending_meta k;
    row_processed = get t.processed_meta k;
    row_aborted = get t.aborted_meta k;
    row_failed = get t.failed_meta k;
  }

  rows-enqueue :
      (t : Tables heed M N E) (p : Pending M) (content : String) (k : ℕ)
      → rows (enqueue heed t p content) k
        ≡ (if p.update_id == k then record (rows t k) { row_pending = some p } else rows t k)
  rows-enqueue t p content k = ground (arith, get-put t.pending_meta p.update_id k p)

  -- The rows of an id whose update was finished.
  abbrev pub finished_rows : Rows M N E → Processed M N ⊎ Failed M E → Rows M N E
  finished_rows r (inl done) = record r { row_pending = none; row_processed = some done }
  finished_rows r (inr broken) = record r { row_pending = none; row_failed = some broken }

  module _ (fault : Faults) (meta : M) (content : String) (u : Uuid) (now : DateTime)
      (s : Store heed M N E) where
    -- While there is room for a greater id, a registration that returns has given an id that no
    -- pending, processed or aborted update has; the update has that id, the given metadata,
    -- index and time; it is the pending row of its id, with the content path beside it, and no
    -- other row changes.
    pub register_update-rows :
        {p : Pending M}
        → HasRoom heed s.env
        → (register_update heed fault meta content u now s).0 ≡ ok p
        → let t = (register_update heed fault meta content u now s).1.env in
          (rows s.env p.update_id ≡ record {
            row_pending = none;
            row_processed = none;
            row_aborted = none;
            row_failed = get s.env.failed_meta p.update_id;
          })
          × (p ≡ new_pending meta p.update_id u now)
          × ((k : ℕ)
              → rows t k ≡ (
                  if p.update_id == k
                  then record (rows s.env k) { row_pending = some p }
                  else rows s.env k))
          × ((k : ℕ)
              → get t.pending k ≡ (if p.update_id == k then some content else get s.env.pending k))
    register_update-rows {p} room h =
        let (is_p, after) = register_update-ok heed fault meta content u now s h in
        let t' = enqueue heed s.env p content in
        let e : (register_update heed fault meta content u now s).1.env ≡ t' =
          rw is_p (ap (λ (x : Store heed M N E). x.env) after) in
        let (not_pending, not_processed, not_aborted) = next_id-unused heed s.env room in
        (
          rw is_p (cc (not_pending, not_processed, not_aborted)),
          cc is_p,
          λ k. rw e (rows-enqueue s.env p content k),
          λ k. rw e (get-put s.env.pending p.update_id k content),
        )

  rows-complete :
      (t : Tables heed M N E) (id : ℕ) (r : Processed M N ⊎ Failed M E) (k : ℕ)
      → rows (complete heed t id r) k ≡ (if id == k then finished_rows (rows t k) r else rows t k)
  rows-complete t id (inl done) k =
      ground (arith, get-delete t.pending_meta id k, get-put t.processed_meta id k done)
  rows-complete t id (inr broken) k =
      ground (arith, get-delete t.pending_meta id k, get-put t.failed_meta id k broken)

  -- When the writing half of a round returns, the update has left the pending table for the one
  -- of its result, under its id, and no other id has its rows changed.
  pub finish-rows :
      (fault : Faults) (f : InFlight M N E) (s : Store heed M N E)
      → (finish heed fault f s).0 ≡ ok tt
      → (k : ℕ)
      → rows (finish heed fault f s).1.env k
        ≡ (if f.first_id == k then finished_rows (rows s.env k) f.result else rows s.env k)
  finish-rows fault f s h k =
      rw ((finish-ok heed fault f s h).0) (rows-complete s.env f.first_id f.result k)

  module _ (fault : Faults) (now : DateTime) (id : ℕ) (s : Store heed M N E) where
    -- On a consistent store, aborting the update that is marked as being processed, when it
    -- returns, returns none.
    pub abort_update-current :
        (q : Processing M) (r : Option (Aborted M))
        → IsConsistent heed s
        → s.processing ≡ some q
        → processing_id q ≡ id
        → (abort_update heed fault now id s).0 ≡ ok r
        → r ≡ none
    abort_update-current q none c marked own h = refl
    abort_update-current q (some a) c marked own h =
        let (_, refused, _) = abort_update-some heed fault now id s h in
        let f = c.current_first q marked in ground arith

    -- When aborting an update returns it, it was pending under that id; its pending row is gone,
    -- its aborted row is what was returned, and no other id has its rows changed.
    pub abort_update-rows :
        {a : Aborted M}
        → (abort_update heed fault now id s).0 ≡ ok (some a)
        → (get s.env.pending_meta id ≡ some a.from)
          × ((k : ℕ)
              → rows (abort_update heed fault now id s).1.env k ≡ (
                  if id == k
                  then record (rows s.env k) { row_pending = none; row_aborted = some a }
                  else rows s.env k))
    abort_update-rows {a} h =
        let (found, _, state) = abort_update-some heed fault now id s h in
        (
          found,
          λ k. rw state (
              ground
                (arith, get-delete s.env.pending_meta id k, get-put s.env.aborted_meta id k a)),
        )
