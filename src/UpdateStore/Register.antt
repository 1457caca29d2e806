-- ===== src/UpdateStore/Register.antt =====
-- What `register_update` and `new_update_id` do to the tables,
-- meilisearch-http/src/index_controller/update_store.rs.
use transplant.Base.{
  ℕ, ◌+◌, ◌%◌, ◌^◌, ◌<◌, ◌≤◌, ◌≡◌, ◌≢◌, refl, sym, ap, ◌-◌, Option, none, some, List, [], ◌∷◌, ◌⊎◌,
  inl, inr, In, Option-cases, String, arith,
}
use transplant.Base.Outcome.{ok, err, panicked}
use transplant.Heed.{Heed}
use transplant.Heed.Keys.{nat_key}
use transplant.Heed.Laws.{get-le-last, last-get}
use transplant.Updates.{Pending, Uuid, DateTime, new_pending}
use transplant.UpdateStore.{
  Error, Faults, Tables, Store, last_key, biggest, new_update_id, register_update,
}

module _ (heed : Heed nat_key) {M N E : Type 0} where
  open heed use {get, put}

  abbrev pub enqueue : Tables heed M N E → Pending M → String → Tables heed M N E
  enqueue t p content = record t {
    pending_meta = put t.pending_meta p.update_id p;
    pending = put t.pending p.update_id content;
  }

  -- The id that is given when no call fails.
  abbrev pub next_id : Tables heed M N E → ℕ
  next_id t =
      elim (biggest (
        last_key heed t.pending_meta
        ∷ last_key heed t.processed_meta
        ∷ last_key heed t.aborted_meta
        ∷ [])) [ some k ↦ (k + 1) % 2 ^ 64 | none ↦ 0 ]

  module _ (fault : Faults) (meta : M) (content : String) (u : Uuid) (now : DateTime)
      (s : Store heed M N E) where
    abbrev pub registered : Pending M
    registered = new_pending meta (next_id s.env) u now

    abbrev pub enqueued : Store heed M N E
    enqueued = record s {
      env = enqueue s.env registered content;
      notifications = s.notifications + 1;
    }

    -- When a registration returns an error, the store is as it was.
    pub register_update-atomic :
        {e : Error}
        → (register_update heed fault meta content u now s).0 ≡ err e
        → (register_update heed fault meta content u now s).1 ≡ s
    unfolding register_update new_update_id last_key
    register_update-atomic h = ground arith

    pub register_update-ok :
        {p : Pending M}
        → (register_update heed fault meta content u now s).0 ≡ ok p
        → (p ≡ registered) × ((register_update heed fault meta content u now s).1 ≡ enqueued)
    unfolding register_update new_update_id last_key
    register_update-ok h = ground arith

    -- A registration that panics has queued the update.
    pub register_update-panicked :
        {m : String}
        → (register_update heed fault meta content u now s).0 ≡ panicked m
        → (m ≡ "Update store loop exited.")
          × ((register_update heed fault meta content u now s).1.env
              ≡ enqueue s.env registered content)
    unfolding register_update new_update_id last_key
    register_update-panicked h = (ground (arith, h), ground (arith, h))

    -- Even a panic leaves either the tables that were there or those with the update queued.
    pub register_update-env :
        ((register_update heed fault meta content u now s).1.processing ≡ s.processing)
        × (((register_update heed fault meta content u now s).1.env ≡ s.env)
            ⊎ ((register_update heed fault meta content u now s).1.env
                ≡ enqueue s.env registered content))
    unfolding register_update new_update_id last_key
    register_update-env = ground arith

-- One above the key, or 0 when there is none.
abbrev above : Option ℕ → ℕ
above none = 0
above (some k) = k + 1

-- `biggest` is an upper bound of the keys, and the least one.
biggest-above : (l : List (Option ℕ)) (k : ℕ) → In (some k) l → k < above (biggest l)
unfolding biggest
biggest-above [] k h = absurd h
biggest-above (none ∷ l) k (inl e) = cc e
biggest-above (none ∷ l) k (inr h) = biggest-above l k h
biggest-above (some j ∷ l) k (inl e) = ground arith
biggest-above (some j ∷ l) k (inr h) = ground (arith, biggest-above l k h)

biggest-least :
    (l : List (Option ℕ)) (b : ℕ) → ((k : ℕ) → In (some k) l → k < b) → above (biggest l) ≤ b
unfolding biggest
biggest-least [] b h = omega arith
biggest-least (none ∷ l) b h = biggest-least l b (λ k i. h k (inr i))
biggest-least (some j ∷ l) b h =
    ground (arith, h j (inl refl), biggest-least l b (λ k i. h k (inr i)))

module _ (heed : Heed nat_key) {M N E : Type 0} (t : Tables heed M N E) where
  open heed use {get}

  -- The key has a row in one of the tables that `new_update_id` looks at.
  abbrev pub IsUsed : ℕ → Type 0
  IsUsed k =
      (get t.pending_meta k ≢ none)
      ⊎ (get t.processed_meta k ≢ none)
      ⊎ (get t.aborted_meta k ≢ none)

  -- There is a greater 64-bit number than any id in use.
  abbrev pub HasRoom : Type 0
  HasRoom = (k : ℕ) → IsUsed k → k + 1 < 2 ^ 64

  abbrev last_ids : List (Option ℕ)
  last_ids =
      last_key heed t.pending_meta
      ∷ last_key heed t.processed_meta
      ∷ last_key heed t.aborted_meta
      ∷ []

  last_key-le :
      {V : Type 0} (d : heed.Database V) (k : ℕ)
      → get d k ≢ none
      → (m : ℕ) × (last_key heed d ≡ some m) × (k ≤ m)
  unfolding last_key
  last_key-le d k h = elim (Option-cases (get d k)) [
    | inl e ↦ absurd (h e)
    | inr f ↦
        let (e, is_last, order) = get-le-last nat_key heed d k f.1 in
        (e.0, ground arith, ground arith)
  ]

  last_key-used :
      {V : Type 0} (d : heed.Database V) (k : ℕ) → last_key heed d ≡ some k → get d k ≢ none
  unfolding last_key
  last_key-used d k h n = elim (Option-cases (heed.last d)) [
    | inl e ↦ cc (rw (e, last_key) at h)
    | inr f ↦
        let found = last-get nat_key heed d {e = f.0} f.1 in
        let same : some (f.0.0) ≡ some k = rw (f.1, last_key) at h in
        let e : f.0.0 ≡ k = cc same in cc (found, n, ap (get d) e)
  ]

  last_ids-IsUsed : (k : ℕ) → In (some k) last_ids → IsUsed k
  last_ids-IsUsed k (inl e) = inl (last_key-used t.pending_meta k (sym e))
  last_ids-IsUsed k (inr (inl e)) = inr (inl (last_key-used t.processed_meta k (sym e)))
  last_ids-IsUsed k (inr (inr (inl e))) = inr (inr (last_key-used t.aborted_meta k (sym e)))
  last_ids-IsUsed k (inr (inr (inr e))) = absurd e

  used-le : (k : ℕ) → IsUsed k → (m : ℕ) × In (some m) last_ids × (k ≤ m)
  used-le k (inl h) = let (m, e, le) = last_key-le t.pending_meta k h in (m, inl (sym e), le)
  used-le k (inr (inl h)) =
      let (m, e, le) = last_key-le t.processed_meta k h in (m, inr (inl (sym e)), le)
  used-le k (inr (inr h)) =
      let (m, e, le) = last_key-le t.aborted_meta k h in (m, inr (inr (inl (sym e))), le)

  next_id-above-biggest : HasRoom → next_id heed t ≡ above (biggest last_ids)
  next_id-above-biggest room =
      let bound =
        biggest-least last_ids (2 ^ 64 - 1) (λ k i. omega (arith, room k (last_ids-IsUsed k i))) in
      ground (arith, bound)

  -- While there is room for a greater id, the next id is greater than every id that has a row in
  -- the pending, the processed or the aborted table.
  pub lt-next_id : HasRoom → (k : ℕ) → IsUsed k → k < next_id heed t
  lt-next_id room k used =
      let (m, i, le) = used-le k used in
      omega (arith, next_id-above-biggest room, biggest-above last_ids m i)

  -- The next id is not above a bound on the ids in use.
  pub next_id-le : (b : ℕ) → b < 2 ^ 64 → ((k : ℕ) → IsUsed k → k < b) → next_id heed t ≤ b
  next_id-le b h all =
      let least = biggest-least last_ids b (λ k i. all k (last_ids-IsUsed k i)) in
      ground (arith, least)
