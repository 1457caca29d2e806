-- ===== src/UpdateStore/System.antt =====
-- Interleavings on one update store: calls of the store's functions by other tasks come between the
-- two halves of `process_pending_update`, and the process can be stopped and started at any time
-- (meilisearch-http/src/index_controller/update_store.rs).
use transplant.Base.{ℕ, ◌≡◌, ◌≢◌, refl, Option, none, some, String}
use transplant.Base.Outcome.{ok}
use transplant.Heed.{Heed}
use transplant.Heed.Keys.{nat_key}
use transplant.Updates.{Uuid, DateTime}
use transplant.UpdateStore.{Faults, Store, register_update}
use transplant.UpdateStore.Abort.{abort_update, abort_pendings}
use transplant.UpdateStore.Process.{Handler, InFlight, take_first, finish}
use transplant.UpdateStore.Register.{HasRoom}
use transplant.UpdateStore.Invariant.{IsConsistent, KeepsFirst}
use transplant.UpdateStore.Consistency.{register_update-IsConsistent, register_update-KeepsFirst}
use transplant.UpdateStore.Process.Consistency.{
  KeepsId, IsFlying, take_first-IsConsistent, take_first-IsFlying, finish-IsConsistent,
}
use transplant.UpdateStore.Abort.Consistency.{
  abort_update-IsConsistent, abort_update-KeepsFirst, abort_pendings-IsConsistent,
  abort_pendings-KeepsFirst,
}

module _ (heed : Heed nat_key) (M N E : Type 0) where
  -- The store and the update that the loop's task has taken and not yet finished.
  pub record System : Type 0 where
    pub store : Store heed M N E
    pub flight : Option (InFlight M N E)

  abbrev pub with_store : System → Store heed M N E → System
  with_store sys s = record { store = s; flight = sys.flight }

  pub data Step : System → System → Type 0 where
    register :
        (sys : System) (fault : Faults) (meta : M) (content : String) (u : Uuid) (now : DateTime)
        → HasRoom heed sys.store.env
        → Step sys (with_store sys (register_update heed fault meta content u now sys.store).1)
    abort_one :
        (sys : System) (fault : Faults) (now : DateTime) (id : ℕ)
        → Step sys (with_store sys (abort_update heed fault now id sys.store).1)
    abort_all :
        (sys : System) (fault : Faults) (now : ℕ → DateTime)
        → Step sys (with_store sys (abort_pendings heed fault now sys.store).1)
    take :
        (s : Store heed M N E) (fault : Faults) (handler : Handler M N E) (now : DateTime)
        (f : InFlight M N E)
        → KeepsId handler
        → (take_first heed fault handler now s).0 ≡ ok (some f)
        → Step
            (record { store = s; flight = none })
            (record { store = (take_first heed fault handler now s).1; flight = some f })
    take_nothing :
        (s : Store heed M N E) (fault : Faults) (handler : Handler M N E) (now : DateTime)
        → ((f : InFlight M N E) → (take_first heed fault handler now s).0 ≢ ok (some f))
        → Step
            (record { store = s; flight = none })
            (record { store = (take_first heed fault handler now s).1; flight = none })
    land :
        (s : Store heed M N E) (fault : Faults) (f : InFlight M N E)
        → Step
            (record { store = s; flight = some f })
            (record { store = (finish heed fault f s).1; flight = none })
    -- What is not durable is lost, and `open` starts with nothing marked.
    restart :
        (sys : System)
        → Step sys (record { store = record sys.store { processing = none }; flight = none })

  pub data Reach (a : System) : System → Type 0 where
    here : Reach a a
    next : {b c : System} → Reach a b → Step b c → Reach a c

  pub record IsSound (sys : System) : Type 0 where
    pub consistent : IsConsistent heed sys.store
    pub flying : (f : InFlight M N E) → sys.flight ≡ some f → IsFlying heed f sys.store

  IsFlying-KeepsFirst :
      (f : InFlight M N E) (s s' : Store heed M N E)
      → KeepsFirst heed s.env s'.env
      → IsFlying heed f s
      → IsFlying heed f s'
  IsFlying-KeepsFirst f s s' keeps fly = record {
    entry = fly.entry;
    still_first = keeps f.first_id fly.entry fly.still_first;
    own_result = fly.own_result;
  }

  pub Step-IsSound : {a b : System} → Step a b → IsSound a → IsSound b
  Step-IsSound (register sys fault meta content u now room) h = record {
    consistent =
        register_update-IsConsistent heed fault meta content u now sys.store room h.consistent;
    flying = λ f e.
        IsFlying-KeepsFirst f sys.store (register_update heed fault meta content u now sys.store).1
          (register_update-KeepsFirst heed fault meta content u now sys.store room) (h.flying f e);
  }
  Step-IsSound (abort_one sys fault now id) h = record {
    consistent = abort_update-IsConsistent heed fault now id sys.store h.consistent;
    flying = λ f e.
        IsFlying-KeepsFirst f sys.store (abort_update heed fault now id sys.store).1
          (abort_update-KeepsFirst heed fault now id sys.store) (h.flying f e);
  }
  Step-IsSound (abort_all sys fault now) h = record {
    consistent = abort_pendings-IsConsistent heed fault now sys.store h.consistent;
    flying = λ f e.
        IsFlying-KeepsFirst f sys.store (abort_pendings heed fault now sys.store).1
          (abort_pendings-KeepsFirst heed fault now sys.store) (h.flying f e);
  }
  Step-IsSound (take s fault handler now g keeps t) h = record {
    consistent = take_first-IsConsistent heed fault handler now s h.consistent;
    flying = λ f e.
        let same : g ≡ f = cc e in
        rw (← same) (take_first-IsFlying heed fault handler now s keeps h.consistent t);
  }
  Step-IsSound (take_nothing s fault handler now empty) h = record {
    consistent = take_first-IsConsistent heed fault handler now s h.consistent;
    flying = λ f e. cc e;
  }
  Step-IsSound (land s fault f) h = record {
    consistent = finish-IsConsistent heed fault f s (h.flying f refl) h.consistent;
    flying = λ f e. cc e;
  }
  Step-IsSound (restart sys) h = record {
    consistent = record { tables = h.consistent.tables; current_first = λ q e. cc e };
    flying = λ f e. cc e;
  }

  -- A system is sound when its tables are well formed, an update that is marked as being
  -- processed is the first pending one, and an update in flight is still the first pending one
  -- with a result under its own id. From a sound system every sequence of steps leads to a sound
  -- one: registrations with room for a greater id, abortions, the two halves of a round with a
  -- handler whose results bear the id of the update, each with any calls failing, and restarts.
  pub Reach-IsSound : {a b : System} → IsSound a → Reach a b → IsSound b
  Reach-IsSound h here = h
  Reach-IsSound h (next r st) = Step-IsSound st (Reach-IsSound h r)
