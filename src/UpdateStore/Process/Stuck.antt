-- ===== src/UpdateStore/Process/Stuck.antt =====
-- The loop of `open` under a handler that fails as a whole,
-- meilisearch-http/src/index_controller/update_store.rs.
use transplant.Base.{ℕ, zero, suc, ◌≡◌, ◌≢◌, refl, ◌∙◌, inl, inr, Option, some, String, arith}
use transplant.Base.Outcome.{Outcome, ok, err, panicked, Outcome-cases}
use transplant.Heed.{Heed}
use transplant.Heed.Keys.{nat_key}
use transplant.Updates.{Pending, DateTime, start}
use transplant.UpdateStore.{Error, Faults, Content, Store}
use transplant.UpdateStore.Process.{
  Handler, take_first, process_pending_update, drain, after_round, Loop, running,
}

module _ (heed : Heed nat_key) {M N E : Type 0} where
  open heed use {get, first}

  -- A handler that fails as a whole for the first pending update leaves it there, and the loop calls
  -- it again and again.
  module _ (id : ℕ) (p : Pending M) (path : String) (content : Content) where
    pub record IsStuck (s : Store heed M N E) : Type 0 where
      pub is_first : first s.env.pending_meta ≡ some (id, p)
      pub is_queued : get s.env.pending id ≡ some path
      pub is_there : s.files path ≡ some content

    module _ (fault : Faults) (handler : Handler M N E) (now : DateTime) (s : Store heed M N E)
        {x : Error} where
      -- Whatever else fails, such a round does not return, and changes no table and no file.
      round_fails :
          IsStuck s
          → handler (start p now) content ≡ err x
          → (outcome : Option (Unit {0}))
          → (process_pending_update heed fault handler now s).0 ≢ ok outcome
      unfolding process_pending_update take_first
      round_fails stuck fails outcome = ground arith

      round_keeps :
          IsStuck s
          → handler (start p now) content ≡ err x
          → IsStuck (process_pending_update heed fault handler now s).1
      unfolding process_pending_update take_first
      round_keeps stuck fails = ground arith

    -- Such a round returns an error: nothing in it panics.
    round_errs :
        (fault : Faults) (handler : Handler M N E) (now : DateTime) (s : Store heed M N E)
        {x : Error}
        → IsStuck s
        → handler (start p now) content ≡ err x
        → (e : Error) × ((process_pending_update heed fault handler now s).0 ≡ err e)
    unfolding process_pending_update take_first
    round_errs fault handler now s stuck fails =
        elim (Outcome-cases (process_pending_update heed fault handler now s).0) [
          | inl (outcome, e) ↦ absurd (round_fails fault handler now s stuck fails outcome e)
          | inr (inl found) ↦ found
          | inr (inr (m, e)) ↦ absurd (ground (arith, e))
        ]

    after_err :
        (r : Outcome Error (Option (Unit {0})) × Store heed M N E)
        → (again : Store heed M N E → Loop (Store heed M N E)) → (e : Error) × (r.0 ≡ err e)
        → after_round heed r again ≡ again r.1
    after_err (ok outcome, s) again (e, h) = absurd (cc h)
    after_err (err e, s) again h = refl
    after_err (panicked m, s) again (e, h) = absurd (cc h)

    -- When the first pending update has its content, and the handler returns an error for it in
    -- every round, then after any number of rounds the loop is still running, neither waiting nor ended,
    -- with that update the first pending one and its content there, whatever else fails.
    pub drain-IsStuck :
        (fault : ℕ → Faults) (handler : ℕ → Handler M N E) (now : ℕ → DateTime) (e : Error)
        → ((i : ℕ) (t : DateTime) → handler i (start p t) content ≡ err e)
        → (n : ℕ) (s : Store heed M N E) → IsStuck s
        → (s' : Store heed M N E) × (drain heed n fault handler now s ≡ running s') × IsStuck s'
    unfolding drain
    drain-IsStuck fault handler now e fails zero s stuck = (s, refl, stuck)
    drain-IsStuck fault handler now e fails (suc n) s stuck =
        let r = process_pending_update heed (fault n) (handler n) (now n) s in
        let again = drain heed n fault handler now in
        let (s', runs, stuck') =
          drain-IsStuck fault handler now e fails n r.1
            (round_keeps (fault n) (handler n) (now n) s stuck (fails n (now n))) in
        let failed = round_errs (fault n) (handler n) (now n) s stuck (fails n (now n)) in
        (s', after_err r again failed ∙ runs, stuck')
