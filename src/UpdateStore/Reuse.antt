-- ===== src/UpdateStore/Reuse.antt =====
-- The failed table is not among those that `new_update_id` looks at, so the id of a failed update
-- is given again, meilisearch-http/src/index_controller/update_store.rs.
use transplant.Base.{ℕ, ◌^◌, ◌<◌, ◌≤◌, ◌≡◌, ◌≢◌, ap, ◌∙◌, none, String, arith, inl, inr}
use transplant.Base.Outcome.{ok}
use transplant.Heed.{Heed}
use transplant.Heed.Keys.{nat_key}
use transplant.Updates.{Pending, Failed, Uuid, DateTime}
use transplant.UpdateStore.{Faults, Tables, Store, register_update}
use transplant.UpdateStore.Process.{InFlight, finish}
use transplant.UpdateStore.Process.Effect.{finish-ok}
use transplant.UpdateStore.Register.{next_id, IsUsed, next_id-le, register_update-ok}
use transplant.UpdateStore.Preserve.{complete}

less : (k id : ℕ) → k ≤ id → k ≢ id → k < id
less k id h n = omega arith

module _ (heed : Heed nat_key) {M N E : Type 0} where
  open heed use {get, get-delete, get-put}

  -- Once the update with the greatest id has failed, every id that is looked at is below its id.
  used_below :
      (t : Tables heed M N E) (id : ℕ) (broken : Failed M E)
      → ((k : ℕ) → IsUsed heed t k → k ≤ id)
      → (get t.processed_meta id ≡ none) × (get t.aborted_meta id ≡ none)
      → (k : ℕ) → IsUsed heed (complete heed t id (inr broken)) k
      → k < id
  used_below t id broken greatest apart k (inl h) =
      let kept : get t.pending_meta k ≢ none =
        λ n. h (ground (arith, get-delete t.pending_meta id k, n)) in
      let other : k ≢ id = λ e. h (ground (arith, get-delete t.pending_meta id k, e)) in
      less k id (greatest k (inl kept)) other
  used_below t id broken greatest apart k (inr (inl h)) =
      less k id (greatest k (inr (inl h))) (λ e. h (rw e apart.0))
  used_below t id broken greatest apart k (inr (inr h)) =
      less k id (greatest k (inr (inr h))) (λ e. h (rw e apart.1))

  -- When an update below the last 64-bit number is finished as failed, no id in the pending,
  -- processed and aborted tables is above its id, and it is in neither of the last two, the next
  -- registration that returns gives an id that is not above its id.
  pub failed-reused :
      (fault fault' : Faults) (f : InFlight M N E) (broken : Failed M E) (s : Store heed M N E)
      (meta : M) (content : String) (u : Uuid) (now : DateTime) {p : Pending M}
      → f.result ≡ inr broken
      → (finish heed fault f s).0 ≡ ok tt
      → ((k : ℕ) → IsUsed heed s.env k → k ≤ f.first_id)
      → (get s.env.processed_meta f.first_id ≡ none) × (get s.env.aborted_meta f.first_id ≡ none)
      → f.first_id < 2 ^ 64
      → (register_update heed fault' meta content u now (finish heed fault f s).1).0 ≡ ok p
      → p.update_id ≤ f.first_id
  failed-reused fault fault' f broken s meta content u now kind done greatest apart bound h =
      let id = f.first_id in
      let s₁ = (finish heed fault f s).1 in
      let t = complete heed s.env id (inr broken) in
      let committed : s₁.env ≡ t =
        (finish-ok heed fault f s done).0 ∙ ap (complete heed s.env id) kind in
      let given = (register_update-ok heed fault' meta content u now s₁ h).0 in
      let below : next_id heed t ≤ id =
        next_id-le heed t id bound (used_below s.env id broken greatest apart) in
      rw (given, committed) below
