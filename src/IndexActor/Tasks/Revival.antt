-- ===== src/IndexActor/Tasks/Revival.antt =====
-- A lookup and a deletion of the same index at the same time, by
-- meilisearch-http/src/index_controller/index_actor.rs: the lookup has seen the directory, and opens
-- the index when it is gone.
use transplant.Base.{
  ℕ, ◌≡◌, ◌≢◌, refl, ap, ◌∙◌, true, false, none, some, List, [], ◌∷◌, arith, set, ==_iff,
}
use transplant.Base.Outcome.{ok}
use transplant.Updates.{Uuid}
use transplant.IndexActor.{Engine, State, no_faults, open_index, make_dir, insert}
use transplant.IndexActor.Tasks.{
  Operation, Phase, Task, Tasks, Reach, get, delete, begun, opening, opened, removed, finished,
  advance, advance_phase, advance_get, advance_delete, go_on, here, next,
}

abbrev pub IsAny : Operation → Type 0
IsAny o = Unit {0}

module _ (engine : Engine) where
  abbrev turn : ℕ → Tasks engine → Tasks engine
  turn t sys = record {
    state = (advance engine no_faults (sys.tasks t) sys.state).1;
    tasks = set sys.tasks t (advance engine no_faults (sys.tasks t) sys.state).0;
  }

  -- The tasks of the list go on one after the other, with no call failing.
  abbrev pub turns : List ℕ → Tasks engine → Tasks engine
  turns [] sys = sys
  turns (t ∷ l) sys = turns l (turn t sys)

  Reach-turns :
      (l : List ℕ) {a : Tasks engine} (sys : Tasks engine)
      → Reach engine IsAny a sys
      → Reach engine IsAny a (turns l sys)
  Reach-turns [] sys r = r
  Reach-turns (t ∷ l) sys r = Reach-turns l (turn t sys) (next r (go_on sys no_faults t))

  abbrev getting : Uuid → Phase → Task
  getting id p = record { operation = get id; phase = p }

  abbrev deleting : Uuid → Phase → Task
  deleting id p = record { operation = delete id; phase = p }

  -- Two tasks of a system, and its store.
  abbrev View : ℕ → ℕ → Tasks engine → Task → Task → State engine → Type 0
  View t u sys T U s = (sys.tasks t ≡ T) × (sys.tasks u ≡ U) × (sys.state ≡ s)

  module _ (t u : ℕ) (apart : t ≢ u) (sys : Tasks engine) {T U : Task} {s : State engine} where
    turn-first :
        View t u sys T U s
        → {T' : Task} {s' : State engine} → advance engine no_faults T s ≡ (T', s')
        → View t u (turn t sys) T' U s'
    turn-first (p, q, r) {T'} {s'} e =
        let went : advance engine no_faults (sys.tasks t) sys.state ≡ (T', s') =
          ap (λ x. advance engine no_faults x sys.state) p
          ∙ (ap (advance engine no_faults T) r ∙ e) in
        (
          ground (arith, ==_iff t t, ap (λ x. x.0) went),
          ground (arith, ==_iff t u, apart, q),
          ap (λ x. x.1) went,
        )

    turn-second :
        View t u sys T U s
        → {U' : Task} {s' : State engine} → advance engine no_faults U s ≡ (U', s')
        → View t u (turn u sys) T U' s'
    turn-second (p, q, r) {U'} {s'} e =
        let went : advance engine no_faults (sys.tasks u) sys.state ≡ (U', s') =
          ap (λ x. advance engine no_faults x sys.state) q
          ∙ (ap (advance engine no_faults U) r ∙ e) in
        (
          ground (arith, ==_iff u t, apart, p),
          ground (arith, ==_iff u u, ap (λ x. x.0) went),
          ap (λ x. x.1) went,
        )

  -- In any state where an index is on the disk and not loaded, a lookup and a deletion of it that
  -- begin can come between each other so that no call fails, the deletion answers that it is done,
  -- the lookup answers that it has found the index, and in the end the index is there again, with its
  -- directory, and empty.
  pub delete-revived :
      (sys : Tasks engine) (t u : ℕ) (id : Uuid)
      → t ≢ u
      → sys.tasks t ≡ record { operation = get id; phase = begun }
      → sys.tasks u ≡ record { operation = delete id; phase = begun }
      → sys.state.dir_exists id ≡ true
      → sys.state.loaded id ≡ false
      → (b : Tasks engine) × Reach engine IsAny sys b
        × ((b.tasks u).phase ≡ finished (ok none))
        × ((b.tasks t).phase ≡ finished (ok (some id)))
        × (b.state.dir_exists id ≡ true)
        × (b.state.loaded id ≡ true)
        × (b.state.index id ≡ engine.new_index)
  unfolding advance_phase advance_get advance_delete open_index
  delete-revived sys t u id apart at_t at_u there unloaded =
      let s = sys.state in
      let gone : State engine = record s { dir_exists = set s.dir_exists id false } in
      let forgotten : State engine = record gone { loaded = set gone.loaded id false } in
      let looked : View t u (turn t sys) (getting id opening) (deleting id begun) s =
        turn-first t u apart sys (at_t, at_u, refl) (rw (unloaded, there) refl) in
      let cut : View t u (turns (t ∷ u ∷ []) sys) (getting id opening) (deleting id removed) gone =
        turn-second t u apart (turn t sys) looked (rw there refl) in
      let cleared : View t u (turns (t ∷ u ∷ u ∷ []) sys) (getting id opening)
          (deleting id (finished (ok none))) forgotten =
        turn-second t u apart (turns (t ∷ u ∷ []) sys) cut (rw unloaded refl) in
      let made : View t u (turns (t ∷ u ∷ u ∷ t ∷ []) sys) (getting id opened)
          (deleting id (finished (ok none))) (make_dir engine id forgotten) =
        turn-first t u apart (turns (t ∷ u ∷ u ∷ []) sys) cleared refl in
      let back : View t u (turns (t ∷ u ∷ u ∷ t ∷ t ∷ []) sys)
          (getting id (finished (ok (some id)))) (deleting id (finished (ok none)))
          (insert engine id (make_dir engine id forgotten)) =
        turn-first t u apart (turns (t ∷ u ∷ u ∷ t ∷ []) sys) made refl in
      (
        turns (t ∷ u ∷ u ∷ t ∷ t ∷ []) sys,
        Reach-turns (t ∷ u ∷ u ∷ t ∷ t ∷ []) sys here,
        ap (λ x. x.phase) back.1,
        ap (λ x. x.phase) back.0,
        ap (λ x. x.dir_exists id) back.2 ∙ ground arith,
        ap (λ x. x.loaded id) back.2 ∙ ground arith,
        ap (λ x. x.index id) back.2 ∙ ground arith,
      )
