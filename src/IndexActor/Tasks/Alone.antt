-- ===== src/IndexActor/Tasks/Alone.antt =====
-- A task that no other task comes between does what the method of the store does.
use transplant.Base.{◌≡◌, Option, none, some, arith}
use transplant.Base.Outcome.{Outcome, ok, err}
use transplant.Updates.{Uuid}
use transplant.IndexActor as Store
use transplant.IndexActor.{
  Engine, State, Faults, IndexError, open_index, set_primary_key, delete_index,
}
use transplant.IndexActor.Tasks.{
  Operation, Task, get, create, delete, begun, finished, advance_get, advance_create,
  advance_delete, advance_phase, advance,
}

module _ (engine : Engine) (fault : Faults) where
  -- Three advances in a row, with the same calls failing.
  abbrev pub run_alone : Task → State engine → Task × State engine
  run_alone t s =
      let (t₁, s₁) = advance engine fault t s in
      let (t₂, s₂) = advance engine fault t₁ s₁ in advance engine fault t₂ s₂

  abbrev pub called : Operation → State engine → Outcome IndexError (Option Uuid) × State engine
  called (create id key) s =
      let (r, s') = Store.create engine fault id key s in
      (elim r [ ok i ↦ ok (some i) | err e ↦ err e | Outcome.panicked m ↦ Outcome.panicked m ], s')
  called (get id) s = Store.get engine fault id s
  called (delete id) s = delete_index engine fault id s

  -- A task that begins and that no other comes between ends, with the answer of the method of the store, and
  -- leaves the store as the method does, whatever fails.
  pub run_alone-called :
      (operation : Operation) (s : State engine)
      → run_alone (record { operation = operation; phase = begun }) s ≡ (
        record { operation = operation; phase = finished (called operation s).0 },
        (called operation s).1,
      )
  unfolding advance_phase advance_get advance_create advance_delete Store.get Store.create
      open_index set_primary_key delete_index
  run_alone-called (get id) s = ground arith
  run_alone-called (delete id) s = ground arith
  run_alone-called (create id none) s = ground arith
  run_alone-called (create id (some k)) s = ground arith
