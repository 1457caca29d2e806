-- ===== src/IndexActor/Tasks/Gets.antt =====
-- Tasks that only look indexes up, in any interleaving: `HeedIndexStore::get` of
-- meilisearch-http/src/index_controller/index_actor.rs drops its lock before it opens an index, so two
-- tasks can open the same one.
use transplant.Base.{
  ℕ, ◌≡◌, ◌∙◌, refl, sym, subst, ap, inl, inr, true, Option, none, some, arith, Bool-cases,
  Option-cases, if◌then◌else◌, set, ◌==◌,
}
use transplant.Base.Outcome.{ok, err, panicked}
use transplant.Updates.{Uuid}
use transplant.IndexActor as Store
use transplant.IndexActor.{
  Engine, State, Faults, IndexError, no_faults, open_index, make_dir, join, create_dir, open_env,
}
use transplant.IndexActor.Messages.{HasDirs}
use transplant.IndexActor.Tasks.{
  Operation, Phase, Task, Tasks, Step, Reach, get, create, delete, begun, opening, opened, removed,
  finished, advance_get, advance_phase, advance, go_on, arrive, here, next,
}

abbrev pub IsGet : Operation → Type 0
IsGet (create id key) = ⊥
IsGet (get id) = Unit {0}
IsGet (delete id) = ⊥

module _ (engine : Engine) (s₀ : State engine) where
  -- The indexes and directories are those of the beginning, and what is loaded has its directory.
  record IsKept (s : State engine) : Type 0 where
    same_dirs : (u : Uuid) → s.dir_exists u ≡ s₀.dir_exists u
    same_index : (u : Uuid) → s.index u ≡ s₀.index u
    stored : (u : Uuid) → s.loaded u ≡ true → s₀.dir_exists u ≡ true

  abbrev found : Uuid → Option Uuid
  found id = if s₀.dir_exists id then some id else none

  abbrev IsOnTime : Uuid → Phase → Type 0
  IsOnTime id begun = Unit {0}
  IsOnTime id opening = s₀.dir_exists id ≡ true
  IsOnTime id opened = s₀.dir_exists id ≡ true
  IsOnTime id removed = ⊥
  IsOnTime id (finished (ok a)) = a ≡ found id
  IsOnTime id (finished (err e)) = Unit {0}
  IsOnTime id (finished (panicked m)) = ⊥

  make_dir-IsKept :
      (id : Uuid) (s : State engine)
      → IsKept s
      → s₀.dir_exists id ≡ true
      → IsKept (make_dir engine id s)
  make_dir-IsKept id s h p = record {
    same_dirs = λ u. ground (arith, p, h.same_dirs u);
    same_index = λ u. ground (arith, p, h.same_dirs id, h.same_index u);
    stored = h.stored;
  }

  advance_get-IsKept :
      (fault : Faults) (id : Uuid) (p : Phase) (s : State engine)
      → IsKept s
      → IsOnTime id p
      → IsKept (advance_get engine fault id p s).1 × IsOnTime id (advance_get engine fault id p s).0
  unfolding advance_get open_index
  advance_get-IsKept fault id begun s h p = elim (Bool-cases (s.loaded id)) [
    | inl y ↦ rw y (h, rw (h.stored id y) refl)
    | inr z ↦ elim (Bool-cases (s.dir_exists id)) [
      | inl y ↦ rw (z, y) (h, sym (h.same_dirs id) ∙ y)
      | inr w ↦ rw (z, w) (h, rw (sym (h.same_dirs id) ∙ w) refl)
    ]
  ]
  advance_get-IsKept fault id opening s h p = elim (Option-cases (fault join)) [
    | inr (x, e) ↦ rw e (h, tt)
    | inl e ↦ elim (Option-cases (fault create_dir)) [
      | inr (x, e') ↦ rw (e, e') (h, tt)
      | inl e' ↦ elim (Option-cases (fault open_env)) [
        | inr (x, e'') ↦ rw (e, e', e'') (make_dir-IsKept id s h p, tt)
        | inl e'' ↦ rw (e, e', e'') (make_dir-IsKept id s h p, p)
      ]
    ]
  ]
  advance_get-IsKept fault id opened s h p = (
    record {
      same_dirs = h.same_dirs;
      same_index = h.same_index;
      stored = λ u e. ground (arith, e, p, h.stored u);
    },
    ground (arith, p),
  )
  advance_get-IsKept fault id removed s h p = (h, p)
  advance_get-IsKept fault id (finished r) s h p = (h, p)

  IsTimely : Task → Type 0
  IsTimely task = (id : Uuid) × (task.operation ≡ get id) × IsOnTime id task.phase

  record IsSound (sys : Tasks engine) : Type 0 where
    kept : IsKept sys.state
    timely : (t : ℕ) → IsTimely (sys.tasks t)

  advance-IsTimely :
      (fault : Faults) (task : Task) (s : State engine)
      → IsKept s
      → IsTimely task
      → IsKept (advance engine fault task s).1 × IsTimely (advance engine fault task s).0
  unfolding IsTimely advance_phase
  advance-IsTimely fault task s h (id, e, p) =
      let went =
        subst
          (λ o.
            IsKept (advance_phase engine fault o task.phase s).1
            × IsOnTime id (advance_phase engine fault o task.phase s).0)
          (sym e) (advance_get-IsKept fault id task.phase s h p) in
      (went.0, (id, e, went.1))

  set-IsTimely :
      (tasks : ℕ → Task) (t : ℕ) (task : Task)
      → ((u : ℕ) → IsTimely (tasks u))
      → IsTimely task
      → (u : ℕ) → IsTimely (set tasks t task u)
  set-IsTimely tasks t task h p u = elim (Bool-cases (t == u)) [
    | inl y ↦ rw y p
    | inr z ↦ rw z (h u)
  ]

  Step-IsSound : {a b : Tasks engine} → Step engine IsGet a b → IsSound a → IsSound b
  unfolding IsTimely
  Step-IsSound (go_on sys fault t) h =
      let went = advance-IsTimely fault (sys.tasks t) sys.state h.kept (h.timely t) in
      record {
        kept = went.0;
        timely =
            set-IsTimely sys.tasks t (advance engine fault (sys.tasks t) sys.state).0 h.timely
              went.1;
      }
  Step-IsSound (arrive sys t (get id) r e allowed slot) h = record {
    kept = h.kept;
    timely =
        set-IsTimely sys.tasks t (record { operation = get id; phase = begun }) h.timely
          (id, refl, tt);
  }
  Step-IsSound (arrive sys t (create id key) r e allowed slot) h = absurd allowed
  Step-IsSound (arrive sys t (delete id) r e allowed slot) h = absurd allowed

  Reach-IsSound : {a b : Tasks engine} → Reach engine IsGet a b → IsSound a → IsSound b
  Reach-IsSound here h = h
  Reach-IsSound (next r st) h = Step-IsSound st (Reach-IsSound r h)

  -- What a task that has looked an index up says when it does not fail is what the store says alone.
  found-get : HasDirs engine s₀ → (id : Uuid) → (Store.get engine no_faults id s₀).0 ≡ ok (found id)
  unfolding Store.get open_index
  found-get dirs id = ground (arith, dirs id)

IsGet-get : (o : Operation) → IsGet o → (id : Uuid) × (o ≡ get id)
IsGet-get (create id key) h = absurd h
IsGet-get (get id) h = (id, refl)
IsGet-get (delete id) h = absurd h

module _ (engine : Engine) where
  -- An answer without an error is the one that the lookup gives alone, when no call fails, in this state.
  abbrev pub IsAnswer : State engine → Uuid → Phase → Type 0
  IsAnswer s id (finished (ok x)) = (Store.get engine no_faults id s).0 ≡ ok x
  IsAnswer s id (finished (err e)) = Unit {0}
  IsAnswer s id (finished (panicked m)) = ⊥
  IsAnswer s id p = Unit {0}

  IsOnTime-IsAnswer :
      (s : State engine) (id : Uuid) (p : Phase)
      → HasDirs engine s
      → IsOnTime engine s id p
      → IsAnswer s id p
  IsOnTime-IsAnswer s id begun dirs h = tt
  IsOnTime-IsAnswer s id opening dirs h = tt
  IsOnTime-IsAnswer s id opened dirs h = tt
  IsOnTime-IsAnswer s id removed dirs h = absurd h
  IsOnTime-IsAnswer s id (finished (ok x)) dirs h = found-get engine s dirs id ∙ ap ok (sym h)
  IsOnTime-IsAnswer s id (finished (err e)) dirs h = tt
  IsOnTime-IsAnswer s id (finished (panicked m)) dirs h = absurd h

  begun-IsSound :
      (a : Tasks engine)
      → HasDirs engine a.state
      → ((t : ℕ) → IsGet (a.tasks t).operation × ((a.tasks t).phase ≡ begun))
      → IsSound engine a.state a
  unfolding IsTimely
  begun-IsSound a dirs begin = record {
    kept = record { same_dirs = λ u. refl; same_index = λ u. refl; stored = dirs };
    timely = λ t.
        let (id, e) = IsGet-get (a.tasks t).operation (begin t).0 in
        (id, e, subst (IsOnTime engine a.state id) (sym (begin t).1) tt);
  }

  -- Where every loaded index has its directory, any number of tasks that look indexes up can come
  -- between each other in any way, each with any calls failing, and others can follow them: no directory and
  -- no index changes, every loaded index still has its directory, and no task panics; a task that has
  -- answered without an error has answered what the lookup answers alone at the beginning when no call fails.
  pub Reach-gets :
      (a b : Tasks engine)
      → HasDirs engine a.state
      → ((t : ℕ) → IsGet (a.tasks t).operation × ((a.tasks t).phase ≡ begun))
      → Reach engine IsGet a b
      → ((u : Uuid)
          → (b.state.dir_exists u ≡ a.state.dir_exists u) × (b.state.index u ≡ a.state.index u))
        × HasDirs engine b.state
        × ((t : ℕ)
            → (id : Uuid) × ((b.tasks t).operation ≡ get id)
              × IsAnswer a.state id (b.tasks t).phase)
  unfolding IsTimely
  Reach-gets a b dirs begin r =
      let sound = Reach-IsSound engine a.state r (begun-IsSound a dirs begin) in
      (
        λ u. (sound.kept.same_dirs u, sound.kept.same_index u),
        λ u e. sound.kept.same_dirs u ∙ sound.kept.stored u e,
        λ t.
            let (id, e, p) = sound.timely t in
            (id, e, IsOnTime-IsAnswer a.state id (b.tasks t).phase dirs p),
      )
