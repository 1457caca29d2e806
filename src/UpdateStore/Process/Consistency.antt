-- ===== src/UpdateStore/Process/Consistency.antt =====
-- The two halves of `process_pending_update` keep a store consistent, also with other calls in
-- between, meilisearch-http/src/index_controller/update_store.rs.
use transplant.Base.{ℕ, ◌≡◌, ◌∙◌, none, some, arith, Option-cases, ◌⊎◌, inl, inr}
use transplant.Base.Outcome.{ok}
use transplant.Heed.{Heed}
use transplant.Heed.Keys.{nat_key}
use transplant.Heed.Laws.{first-get}
use transplant.Updates.{Pending, Processing, Processed, Failed, DateTime, start, processing_id}
use transplant.UpdateStore.{Faults, Content, Store}
use transplant.UpdateStore.Process.{Handler, InFlight, take_first, finish}
use transplant.UpdateStore.Process.Effect.{env-take_first, take_first-TakenFrom}
use transplant.UpdateStore.Invariant.{IsConsistent}
use transplant.UpdateStore.Preserve.{complete, result_id, complete-WellFormed}

-- The handler's result is about the update that it was given.
abbrev pub KeepsId : {M N E : Type 0} → Handler M N E → Type 0
KeepsId {M} {N} {E} handler =
    (q : Processing M) (c : Content) (r : Processed M N ⊎ Failed M E)
    → handler q c ≡ ok r
    → result_id r ≡ processing_id q

module _ (heed : Heed nat_key) {M N E : Type 0} where
  open heed use {get, first}

  -- What holds of the update in flight while others use the store.
  pub record IsFlying (f : InFlight M N E) (s : Store heed M N E) : Type 0 where
    pub entry : Pending M
    pub still_first : first s.env.pending_meta ≡ some (f.first_id, entry)
    pub own_result : result_id f.result ≡ f.first_id

  module _ (fault : Faults) (handler : Handler M N E) (now : DateTime) (s : Store heed M N E) where
    take_first-processing_some :
        (id : ℕ) (p : Pending M)
        → first s.env.pending_meta ≡ some (id, p)
        → ((take_first heed fault handler now s).1.processing ≡ s.processing)
          ⊎ ((take_first heed fault handler now s).1.processing ≡ some (start p now))
    unfolding take_first
    take_first-processing_some id p e = ground arith

    take_first-processing_none :
        first s.env.pending_meta ≡ none
        → (take_first heed fault handler now s).1.processing ≡ s.processing
    unfolding take_first
    take_first-processing_none e = ground arith

    pub take_first-IsConsistent :
        IsConsistent heed s → IsConsistent heed (take_first heed fault handler now s).1
    take_first-IsConsistent c =
        let same = env-take_first heed fault handler now s in
        record {
          tables = rw same c.tables;
          current_first = elim (Option-cases (first s.env.pending_meta)) [
            | inl e ↦ rw (same, take_first-processing_none e) c.current_first
            | inr e ↦ elim (take_first-processing_some e.0.0 e.0.1 e.1) [
              | inl kept ↦ rw (same, kept) c.current_first
              | inr marked ↦
                  let own =
                    c.tables.pending_keyed e.0.0 e.0.1
                      (first-get nat_key heed s.env.pending_meta e.1) in
                  rw (same, marked) (λ q is_q. ground (arith, own))
            ]
          ];
        }

    pub take_first-IsFlying :
        {f : InFlight M N E}
        → KeepsId handler
        → IsConsistent heed s
        → (take_first heed fault handler now s).0 ≡ ok (some f)
        → IsFlying f (take_first heed fault handler now s).1
    take_first-IsFlying {f} keeps c t =
        let from = take_first-TakenFrom heed fault handler now s t in
        let own =
          c.tables.pending_keyed f.first_id from.entry
            (first-get nat_key heed s.env.pending_meta from.was_first) in
        record {
          entry = from.entry;
          still_first = rw (env-take_first heed fault handler now s) (from.was_first);
          own_result = keeps (start from.entry now) from.content f.result from.handled ∙ own;
        }

  module _ (fault : Faults) (f : InFlight M N E) (s : Store heed M N E) where
    finish-effect :
        (((finish heed fault f s).1.env ≡ s.env)
          × ((finish heed fault f s).1.processing ≡ s.processing))
        ⊎ (((finish heed fault f s).1.env ≡ s.env) × ((finish heed fault f s).1.processing ≡ none))
        ⊎ (((finish heed fault f s).1.env ≡ complete heed s.env f.first_id f.result)
            × ((finish heed fault f s).1.processing ≡ none))
    unfolding finish
    finish-effect = ground arith

    pub finish-IsConsistent :
        IsFlying f s → IsConsistent heed s → IsConsistent heed (finish heed fault f s).1
    finish-IsConsistent fly c = elim finish-effect [
      | inl e ↦ record { tables = rw e.0 c.tables; current_first = rw (e.1, e.0) c.current_first }
      | inr (inl e) ↦ record { tables = rw e.0 c.tables; current_first = rw e.1 (λ q h. cc) }
      | inr (inr e) ↦ record {
        tables = rw e.0 (
            complete-WellFormed heed s.env f.first_id f.result fly.entry fly.own_result
              (first-get nat_key heed s.env.pending_meta fly.still_first) c.tables);
        current_first = rw e.1 (λ q h. cc);
      }
    ]
