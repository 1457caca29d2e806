-- ===== src/UpdateStore/Stages.antt =====
-- What the tables of meilisearch-http/src/index_controller/update_store.rs show of each id, as the stages
-- of Spec, and how the changes of the tables change it.
use transplant.Base.{ℕ, ◌≡◌, Bool-cases, Option, none, some, String, set, ◌==◌, arith, inl, inr}
use mathlib.Core.Path.{fun_ext}
use transplant.Heed.{Heed}
use transplant.Heed.Keys.{nat_key}
use transplant.Updates.{Pending, Processed, Aborted, Failed}
use transplant.UpdateStore.{Tables}
use transplant.UpdateStore.Register.{enqueue}
use transplant.UpdateStore.Abort.{move_aborted}
use transplant.UpdateStore.Invariant.{WellFormed}
use transplant.UpdateStore.Preserve.{complete}
use transplant.UpdateStore.Spec as Spec
use transplant.UpdateStore.Spec.{
  Stage, Entry, vacant, waiting, completed, dropped, at_stage, Move, Moves, stay, also,
  append-Moves, Moves-final,
}

abbrev pub stage_of :
    {M N : Type 0} → Option (Processed M N) → Option (Aborted M) → Option (Pending M) → Stage M N
stage_of (some d) a p = completed d
stage_of none (some a) p = dropped a
stage_of none none (some p) = waiting p
stage_of none none none = vacant

module _ (heed : Heed nat_key) {M N E : Type 0} where
  open heed use {get, first, get-put, get-delete}

  -- What the tables show of each id.
  abbrev pub view : Tables heed M N E → Spec.Spec M N E
  view t k = record {
    stage = stage_of (get t.processed_meta k) (get t.aborted_meta k) (get t.pending_meta k);
    failure = get t.failed_meta k;
  }

  pub view-pending :
      (t : Tables heed M N E) (k : ℕ) (p : Pending M)
      → WellFormed heed t
      → get t.pending_meta k ≡ some p
      → (view t k).stage ≡ waiting p
  view-pending t k p w h = ground (arith, h, w.pending_apart k p h)

  pub view-enqueue :
      (t : Tables heed M N E) (p : Pending M) (content : String)
      → (view t p.update_id).stage ≡ vacant
      → view (enqueue heed t p content)
        ≡ set (view t) p.update_id (at_stage (view t p.update_id) (waiting p))
  view-enqueue t p content h = fun_ext (λ k. elim (Bool-cases (p.update_id == k)) [
    | inl e ↦ ground (arith, e, h, get-put t.pending_meta p.update_id k p)
    | inr e ↦ ground (arith, e, get-put t.pending_meta p.update_id k p)
  ])

  pub view-move_aborted :
      (t : Tables heed M N E) (k : ℕ) (p : Pending M) (a : Aborted M)
      → WellFormed heed t
      → get t.pending_meta k ≡ some p
      → view (move_aborted heed t (k, a)) ≡ set (view t) k (at_stage (view t k) (dropped a))
  view-move_aborted t k p a w h = fun_ext (λ j. ground (
    arith,
    h,
    w.pending_apart k p h,
    get-put t.aborted_meta k j a,
    get-delete t.pending_meta k j,
  ))

  pub view-complete_ok :
      (t : Tables heed M N E) (k : ℕ) (p : Pending M) (d : Processed M N)
      → WellFormed heed t
      → get t.pending_meta k ≡ some p
      → view (complete heed t k (inl d)) ≡ set (view t) k (at_stage (view t k) (completed d))
  view-complete_ok t k p d w h = fun_ext (λ j. ground (
    arith,
    h,
    w.pending_apart k p h,
    get-put t.processed_meta k j d,
    get-delete t.pending_meta k j,
  ))

  pub view-complete_err :
      (t : Tables heed M N E) (k : ℕ) (p : Pending M) (f : Failed M E)
      → WellFormed heed t
      → get t.pending_meta k ≡ some p
      → view (complete heed t k (inr f))
        ≡ set (view t) k (record { stage = vacant; failure = some f })
  view-complete_err t k p f w h = fun_ext (λ j.
      ground (
        arith,
        h,
        w.pending_apart k p h,
        get-put t.failed_meta k j f,
        get-delete t.pending_meta k j,
      ))
