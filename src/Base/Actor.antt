-- ===== src/Base/Actor.antt =====
-- A handle and the actor behind it: the handle sends a message with the sender of a oneshot channel
-- and waits for the reply. Messages are handled one at a time; an actor whose handler panics
-- answers nothing, then or later, and the handle's `expect` panics.
use mathlib.Core.Bool.{Bool, true, false}
use transplant.Base.Tests.{if◌then◌else◌}
use Prim.Native.String.{String}
use transplant.Base.Outcome.{ok, err, panicked, map_err}
use transplant.Base.Exec.{Exec}
use mathlib.Core.Path.{◌≡◌}
use native.Mathlib.Omega.{arith}

pub record Actor (S : Type 0) : Type 0 where
  pub running : Bool
  pub state : S

-- `receiver.await.expect(killed)`, after the message is sent.
abbrev pub ask : {S E A : Type 0} → String → Exec S E A → Exec (Actor S) E A
ask killed handler a =
    if a.running
    then (let (r, s) = handler a.state in
        elim r [
          | ok x ↦ (ok x, record { running = true; state = s })
          | err e ↦ (err e, record { running = true; state = s })
          | panicked m ↦ (panicked killed, record { running = false; state = s })
        ])
    else (panicked killed, a)

module _ {S E A : Type 0} (killed : String) (handler : Exec S E A) (a : Actor S) where
  -- A handle's call that returns was answered by a running actor.
  pub ask-ok :
      {x : A}
      → (ask killed handler a).0 ≡ ok x
      → (a.running ≡ true)
        × ((handler a.state).0 ≡ ok x)
        × ((ask killed handler a).1 ≡ record { running = true; state = (handler a.state).1 })
  ask-ok h = (ground arith, ground arith, ground arith)

  -- A running actor passes on what its handler returns, a value or an error.
  pub ask_returns :
      {x : A}
      → a.running ≡ true
      → (handler a.state).0 ≡ ok x
      → ask killed handler a ≡ (ok x, record { running = true; state = (handler a.state).1 })
  ask_returns runs h = ground arith

  pub ask_fails :
      {e : E}
      → a.running ≡ true
      → (handler a.state).0 ≡ err e
      → ask killed handler a ≡ (err e, record { running = true; state = (handler a.state).1 })
  ask_fails runs h = ground arith

-- A call of a part of the state, with its errors converted.
abbrev pub within : {S T E F A : Type 0} → (S → T) → (T → S → S) → (E → F) → Exec T E A → Exec S F A
within part put wrap m s = let (r, t) = m (part s) in (map_err wrap r, put t s)
