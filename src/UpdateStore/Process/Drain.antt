-- ===== src/UpdateStore/Process/Drain.antt =====
-- The loop that `open` spawns: it empties the queue when nothing fails, and a handler that always
-- fails keeps it busy for ever, meilisearch-http/src/index_controller/update_store.rs.
use transplant.Base.{
  ℕ, zero, suc, ◌<◌, ◌≡◌, ◌≢◌, refl, ap, ◌∙◌, Option, none, some, String, arith, Option-cases, ◌⊎◌,
  inl, inr, [], length, eq_iff,
}
use transplant.Base.Outcome.{ok, err}
use transplant.Heed.{Heed, lookup}
use transplant.Heed.Keys.{nat_key}
use transplant.Heed.Laws.{first-get, first-none, length-delete}
use transplant.Updates.{Pending, Processing, Processed, Failed, DateTime, start}
use transplant.UpdateStore.{Error, Faults, no_faults, Content, Tables, Store}
use transplant.UpdateStore.Process.{
  Handler, take_first, finish, process_pending_update, drain, waiting, after_round, unlink,
}
use transplant.UpdateStore.Process.Consistency.{KeepsId}
use transplant.UpdateStore.Invariant.{IsConsistent}
use transplant.UpdateStore.Preserve.{complete, result_id, complete-WellFormed}

dec_eq : (i k : ℕ) → (i ≡ k) ⊎ (i ≢ k)
dec_eq i k = ground arith

has_some : {A : Type 0} (o : Option A) → o ≢ none → (a : A) × (o ≡ some a)
has_some none h = absurd (h refl)
has_some (some a) h = (a, refl)

nothing :
    (heed : Heed nat_key) {V : Type 0} (d : heed.Database V)
    → heed.iter d ≡ []
    → (k : ℕ) → heed.get d k ≡ none
nothing heed d e k = heed.get-iter d k ∙ ap (lookup nat_key k) e

module _ (heed : Heed nat_key) {M N E : Type 0} where
  open heed use {get, first, iter, get-delete, get-put}

  -- Every queued content is a file, and no two updates share one.
  pub record HasFiles (s : Store heed M N E) : Type 0 where
    pub is_file : (k : ℕ) (path : String) → get s.env.pending k ≡ some path → s.files path ≢ none
    pub own_file :
        (i j : ℕ) (path : String)
        → get s.env.pending i ≡ some path
        → get s.env.pending j ≡ some path
        → i ≡ j

  -- The handler returns a result, of either kind, for every update.
  abbrev pub IsTotal : Handler M N E → Type 0
  IsTotal handler =
      (q : Processing M) (c : Content) → (r : Processed M N ⊎ Failed M E) × (handler q c ≡ ok r)

  -- The store after an update was finished with nothing failing.
  abbrev after : Store heed M N E → ℕ → String → Processed M N ⊎ Failed M E → Store heed M N E
  after s id path r = record s {
    env = complete heed s.env id r;
    processing = none;
    files = unlink path s.files;
  }

  module _ (handler : Handler M N E) (now : DateTime) (s : Store heed M N E) where
    round-some :
        (id : ℕ) (p : Pending M) (path : String) (c : Content) (r : Processed M N ⊎ Failed M E)
        → first s.env.pending_meta ≡ some (id, p)
        → get s.env.pending id ≡ some path
        → s.files path ≡ some c
        → handler (start p now) c ≡ ok r
        → process_pending_update heed no_faults handler now s ≡ (ok (some tt), after s id path r)
    unfolding process_pending_update take_first finish
    round-some id p path c r f g h e = ground arith

    round-none :
        first s.env.pending_meta ≡ none
        → process_pending_update heed no_faults handler now s ≡ (ok none, s)
    unfolding process_pending_update take_first
    round-none f = ground arith

  pending_meta-complete :
      (t : Tables heed M N E) (id : ℕ) (r : Processed M N ⊎ Failed M E)
      → (complete heed t id r).pending_meta ≡ heed.delete t.pending_meta id
  pending_meta-complete t id (inl done) = refl
  pending_meta-complete t id (inr broken) = refl

  pending-complete :
      (t : Tables heed M N E) (id : ℕ) (r : Processed M N ⊎ Failed M E)
      → (complete heed t id r).pending ≡ heed.delete t.pending id
  pending-complete t id (inl done) = refl
  pending-complete t id (inr broken) = refl

  -- The update has a result, of either kind.
  abbrev pub IsSettled : Tables heed M N E → ℕ → Type 0
  IsSettled t k = (get t.processed_meta k ≢ none) ⊎ (get t.failed_meta k ≢ none)

  IsSettled-complete :
      (t : Tables heed M N E) (id : ℕ) (r : Processed M N ⊎ Failed M E) (k : ℕ)
      → (id ≡ k) ⊎ IsSettled t k
      → IsSettled (complete heed t id r) k
  IsSettled-complete t id (inl done) k (inl e) =
      inl (λ n. ground (arith, get-put t.processed_meta id k done))
  IsSettled-complete t id (inl done) k (inr (inl h)) =
      inl (λ n. h (ground (arith, get-put t.processed_meta id k done)))
  IsSettled-complete t id (inl done) k (inr (inr h)) = inr h
  IsSettled-complete t id (inr broken) k (inl e) =
      inr (λ n. ground (arith, get-put t.failed_meta id k broken))
  IsSettled-complete t id (inr broken) k (inr (inl h)) = inl h
  IsSettled-complete t id (inr broken) k (inr (inr h)) =
      inr (λ n. h (ground (arith, get-put t.failed_meta id k broken)))

  HasFiles-after :
      (s : Store heed M N E) (id : ℕ) (path : String) (r : Processed M N ⊎ Failed M E)
      → get s.env.pending id ≡ some path
      → HasFiles s
      → HasFiles (after s id path r)
  HasFiles-after s id path r g h =
      let gone = pending-complete s.env id r in
      let at = λ (k : ℕ). get-delete s.env.pending id k in
      record {
        is_file = λ k path' e n.
            let e' : get (heed.delete s.env.pending id) k ≡ some path' = rw gone at e in
            ground (arith, at k, eq_iff path path', h.is_file k path', h.own_file id k path);
        own_file = λ i j path' e f.
            let e' : get (heed.delete s.env.pending id) i ≡ some path' = rw gone at e in
            let f' : get (heed.delete s.env.pending id) j ≡ some path' = rw gone at f in
            ground (arith, at i, at j, h.own_file i j path');
      }

  after-IsConsistent :
      (s : Store heed M N E) (id : ℕ) (p : Pending M) (path : String)
      (r : Processed M N ⊎ Failed M E)
      → first s.env.pending_meta ≡ some (id, p)
      → result_id r ≡ id
      → IsConsistent heed s
      → IsConsistent heed (after s id path r)
  after-IsConsistent s id p path r f own c = record {
    tables =
        complete-WellFormed heed s.env id r p own (first-get nat_key heed s.env.pending_meta f)
          c.tables;
    current_first = λ q e. cc e;
  }

  shorter :
      (t : Tables heed M N E) (id n : ℕ) (p : Pending M) (r : Processed M N ⊎ Failed M E)
      → get t.pending_meta id ≡ some p
      → length (iter t.pending_meta) < suc n
      → length (iter (complete heed t id r).pending_meta) < n
  shorter t id n p r g h =
      rw (pending_meta-complete t id r)
        (omega (arith, length-delete nat_key heed t.pending_meta id g))

  -- What a finished round makes of one pending or settled update.
  after-pending :
      (t : Tables heed M N E) (id : ℕ) (r : Processed M N ⊎ Failed M E) (k : ℕ)
      → (get t.pending_meta k ≢ none) ⊎ IsSettled t k
      → (get (complete heed t id r).pending_meta k ≢ none) ⊎ IsSettled (complete heed t id r) k
  after-pending t id r k (inr h) = inr (IsSettled-complete t id r k (inr h))
  after-pending t id r k (inl h) = elim (dec_eq id k) [
    | inl e ↦ inr (IsSettled-complete t id r k (inl e))
    | inr n ↦ inl (
        rw (pending_meta-complete t id r) (λ g. h (ground (arith, get-delete t.pending_meta id k))))
  ]

  module _ (fault : ℕ → Faults) (handler : ℕ → Handler M N E) (now : ℕ → DateTime) (n : ℕ)
      (s : Store heed M N E) {s' : Store heed M N E} where
    drain-done :
        process_pending_update heed (fault n) (handler n) (now n) s ≡ (ok none, s')
        → drain heed (suc n) fault handler now s ≡ waiting s'
    unfolding drain
    drain-done e = ap (λ x. after_round heed x (drain heed n fault handler now)) e

    drain-next :
        process_pending_update heed (fault n) (handler n) (now n) s ≡ (ok (some tt), s')
        → drain heed (suc n) fault handler now s ≡ drain heed n fault handler now s'
    unfolding drain
    drain-next e = ap (λ x. after_round heed x (drain heed n fault handler now)) e

    drain-retry :
        {x : Error}
        → process_pending_update heed (fault n) (handler n) (now n) s ≡ (err x, s')
        → drain heed (suc n) fault handler now s ≡ drain heed n fault handler now s'
    unfolding drain
    drain-retry e = ap (λ x. after_round heed x (drain heed n fault handler now)) e

  -- A round with nothing failing finishes the first pending update.
  full_round :
      (handler : Handler M N E) (now : DateTime)
      → IsTotal handler
      → KeepsId handler
      → (s : Store heed M N E) (id : ℕ) (p : Pending M) → IsConsistent heed s
      → HasFiles s
      → first s.env.pending_meta ≡ some (id, p)
      → (path : String) × (r : Processed M N ⊎ Failed M E) × (process_pending_update heed no_faults
            handler now s
          ≡ (ok (some tt), after s id path r))
        × (get s.env.pending id ≡ some path)
        × (result_id r ≡ id)
  full_round handler now total own s id p c h f =
      let found = first-get nat_key heed s.env.pending_meta f in
      let (path, queued) =
        has_some (get s.env.pending id) (λ n. cc (found, c.tables.content_kept id n)) in
      let (content, opened) = has_some (s.files path) (h.is_file id path queued) in
      let (r, handled) = total (start p now) content in
      (
        path,
        r,
        round-some handler now s id p path content r f queued opened handled,
        queued,
        own (start p now) content r handled ∙ c.tables.pending_keyed id p found,
      )

  module _ (handler : ℕ → Handler M N E) (now : ℕ → DateTime)
      (total : (i : ℕ) → IsTotal (handler i)) (own : (i : ℕ) → KeepsId (handler i)) where
    -- On a consistent store in which every pending update has a content file of its own, with a
    -- handler that returns a result under the id of the update, with no call failing and with
    -- more rounds than there are pending updates, the loop ends, nothing is pending, and every
    -- update that was pending, processed or failed is processed or failed.
    pub drain-empties :
        (n : ℕ) (s : Store heed M N E)
        → IsConsistent heed s
        → HasFiles s
        → length (iter s.env.pending_meta) < n
        → (s' : Store heed M N E) × (drain heed n (λ i. no_faults) handler now s ≡ waiting s')
          × (iter s'.env.pending_meta ≡ [])
          × ((k : ℕ) → (get s.env.pending_meta k ≢ none) ⊎ IsSettled s.env k → IsSettled s'.env k)
    drain-empties zero s c h l = absurd (omega arith)
    drain-empties (suc n) s c h l = elim (Option-cases (first s.env.pending_meta)) [
      | inl e ↦
          let empty = first-none nat_key heed s.env.pending_meta e in
          (
            s,
            drain-done (λ i. no_faults) handler now n s (round-none (handler n) (now n) s e),
            empty,
            λ k. elim [
              | inl waits ↦ absurd (waits (nothing heed s.env.pending_meta empty k))
              | inr settled ↦ settled
            ],
          )
      | inr e ↦
          let id = e.0.0 in
          let p = e.0.1 in
          let found = first-get nat_key heed s.env.pending_meta e.1 in
          let (path, r, round, queued, is_own) =
            full_round (handler n) (now n) (total n) (own n) s id p c h e.1 in
          let s₁ = after s id path r in
          let (s', ends, empty, settled) =
            drain-empties n s₁ (after-IsConsistent s id p path r e.1 is_own c)
              (HasFiles-after s id path r queued h) (shorter s.env id n p r found l) in
          (
            s',
            drain-next (λ i. no_faults) handler now n s round ∙ ends,
            empty,
            λ k k_in. settled k (after-pending s.env id r k k_in),
          )
    ]
