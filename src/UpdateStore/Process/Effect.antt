-- ===== src/UpdateStore/Process/Effect.antt =====
-- What the two halves of `process_pending_update` do to a store, whichever calls fail.
use transplant.Base.{ℕ, ◌≡◌, ◌≢◌, none, some, arith, Option-cases, inl, inr}
use transplant.Base.Outcome.{ok, err}
use transplant.Heed.{Heed}
use transplant.Heed.Keys.{nat_key}
use transplant.Updates.{Pending, DateTime, start}
use transplant.UpdateStore.{Error, Faults, Content, Store}
use transplant.UpdateStore.Process.{Handler, InFlight, take_first, process_first, finish}
use transplant.UpdateStore.Preserve.{complete}

module _ (heed : Heed nat_key) {M N E : Type 0} where
  open heed use {get, first}

  module _ (fault : Faults) (handler : Handler M N E) (now : DateTime) (s : Store heed M N E) where
    -- The reading half never writes the tables.
    pub env-take_first : (take_first heed fault handler now s).1.env ≡ s.env
    unfolding take_first
    env-take_first = ground arith

    module _ (id : ℕ) (entry : Pending M) {f : InFlight M N E}
        (taken : (process_first heed fault handler now s.env (id, entry) s).0 ≡ ok (some f)) where
      process_first-some :
          (f.first_id ≡ id)
          × (get s.env.pending id ≡ some f.content_path)
          × ((process_first heed fault handler now s.env (id, entry) s).1.processing
              ≡ some (start entry now))
      unfolding process_first
      process_first-some = ground arith

      process_first-handled :
          (content : Content) × (s.files f.content_path ≡ some content)
          × (handler (start entry now) content ≡ ok f.result)
      unfolding process_first
      process_first-handled = elim (Option-cases (s.files f.content_path)) [
        | inl gone ↦ absurd (ground arith)
        | inr found ↦ (found.0, found.1, ground arith)
      ]

    -- With nothing to take the store is left as it was.
    pub take_first-none :
        (take_first heed fault handler now s).0 ≡ ok none
        → (first s.env.pending_meta ≡ none) × ((take_first heed fault handler now s).1 ≡ s)
    unfolding take_first
    take_first-none h = ground arith

  module _ (fault : Faults) (f : InFlight M N E) (s : Store heed M N E) where
    -- The writing half, when it returns, has committed the result and unmarked the update.
    pub finish-ok :
        (finish heed fault f s).0 ≡ ok tt
        → ((finish heed fault f s).1.env ≡ complete heed s.env f.first_id f.result)
          × ((finish heed fault f s).1.processing ≡ none)
    unfolding finish
    finish-ok h = ground arith

    -- When the writing half of a round returns an error, the tables are as they were.
    pub finish-err :
        {e : Error} → (finish heed fault f s).0 ≡ err e → (finish heed fault f s).1.env ≡ s.env
    unfolding finish
    finish-err h = ground arith

  module _ (fault : Faults) (handler : Handler M N E) (now : DateTime) (s : Store heed M N E) where
    -- What a flight that was taken tells of the store that it was taken from.
    pub record TakenFrom (f : InFlight M N E) : Type 0 where
      pub entry : Pending M
      pub content : Content
      pub was_first : first s.env.pending_meta ≡ some (f.first_id, entry)
      pub had_content : get s.env.pending f.first_id ≡ some f.content_path
      pub marked : (take_first heed fault handler now s).1.processing ≡ some (start entry now)
      pub handled : handler (start entry now) content ≡ ok f.result

    take_first-eq :
        (id : ℕ) (p : Pending M) {f : InFlight M N E}
        → first s.env.pending_meta ≡ some (id, p)
        → (take_first heed fault handler now s).0 ≡ ok (some f)
        → take_first heed fault handler now s ≡ process_first heed fault handler now s.env (id, p) s
    unfolding take_first
    take_first-eq id p h t = ground arith

    take_first-pending :
        {f : InFlight M N E}
        → (take_first heed fault handler now s).0 ≡ ok (some f)
        → first s.env.pending_meta ≢ none
    unfolding take_first
    take_first-pending t h = ground arith

    taken_from :
        (f : InFlight M N E) (id : ℕ) (p : Pending M)
        → first s.env.pending_meta ≡ some (id, p)
        → (take_first heed fault handler now s).0 ≡ ok (some f)
        → TakenFrom f
    taken_from f id p e t =
        let same = take_first-eq id p e t in
        let t' = rw same at t in
        let (is_id, path, mark) = process_first-some fault handler now s id p t' in
        let (content, _, run) = process_first-handled fault handler now s id p t' in
        record {
          entry = p;
          content = content;
          was_first = rw is_id e;
          had_content = rw is_id path;
          marked = rw same mark;
          handled = run;
        }

    pub take_first-TakenFrom :
        {f : InFlight M N E} → (take_first heed fault handler now s).0 ≡ ok (some f) → TakenFrom f
    take_first-TakenFrom {f} t = elim (Option-cases (first s.env.pending_meta)) [
      | inl e ↦ absurd (take_first-pending t e)
      | inr e ↦ taken_from f e.0.0 e.0.1 e.1 t
    ]
