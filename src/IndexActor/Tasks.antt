-- ===== src/IndexActor/Tasks.antt =====
-- The store of the indexes when several tasks call it: `run` of
-- meilisearch-http/src/index_controller/index_actor.rs handles messages concurrently, so that other tasks
-- come in wherever a method of `HeedIndexStore` awaits. A task is advanced from one `await` to the next.
pub mod Alone
pub mod Gets
pub mod Revival
use transplant.Base.{ℕ, ◌≡◌, true, false, Option, none, some, if◌then◌else◌, set, ◌≤◌, String}
use transplant.Base.Outcome.{Outcome, ok, err, panicked}
use transplant.Base.Exec.{Exec, ◌>>=◌, ◌>>◌, pure, attempt, modify}
use transplant.Updates.{Uuid}
use transplant.IndexActor.{
  Engine, State, Faults, IndexError, join, remove_dir, error, index_already_exists, open_index,
  set_primary_key, insert,
}

-- A call of a method of the store.
pub data Operation : Type 0 where
  create : Uuid → Option String → Operation
  get delete : Uuid → Operation

-- Where a task stands: it has not begun, it waits for the blocking task that opens the index, it waits
-- for the lock of the map with the opened index, or with the directory removed, or it has its answer.
pub data Phase : Type 0 where
  begun opening opened removed : Phase
  finished : Outcome IndexError (Option Uuid) → Phase

pub record Task : Type 0 where
  pub operation : Operation
  pub phase : Phase

module _ (engine : Engine) where
  -- A blocking task that is awaited: its error ends the task.
  abbrev blocking : Exec (State engine) IndexError Uuid → State engine → Phase × State engine
  blocking open_task s =
      let (r, s') = open_task s in
      elim r [
        | ok i ↦ (opened, s')
        | err e ↦ (finished (err e), s')
        | panicked m ↦ (finished (panicked m), s')
      ]

  abbrev insert_opened : Uuid → State engine → Phase × State engine
  insert_opened id s = (finished (ok (some id)), insert engine id s)

  unfoldable pub advance_create :
      Faults → Uuid → Option String → Phase → State engine → Phase × State engine
  unfolding open_index set_primary_key
  advance_create fault id key begun s =
      if s.dir_exists id then (finished (err index_already_exists), s) else (opening, s)
  advance_create fault id key opening s =
      blocking
        (do
          attempt (fault join)
          i ← open_index engine fault id
          set_primary_key engine fault i key
          pure i)
        s
  advance_create fault id key opened s = insert_opened id s
  advance_create fault id key removed s = (removed, s)
  advance_create fault id key (finished r) s = (finished r, s)

  unfoldable pub advance_get : Faults → Uuid → Phase → State engine → Phase × State engine
  unfolding open_index
  advance_get fault id begun s =
      if s.loaded id
      then (finished (ok (some id)), s)
      else if s.dir_exists id
      then (opening, s)
      else (finished (ok none), s)
  advance_get fault id opening s = blocking (do attempt (fault join); open_index engine fault id) s
  advance_get fault id opened s = insert_opened id s
  advance_get fault id removed s = (removed, s)
  advance_get fault id (finished r) s = (finished r, s)

  unfoldable pub advance_delete : Faults → Uuid → Phase → State engine → Phase × State engine
  advance_delete fault id begun s =
      if s.dir_exists id
      then (elim (fault remove_dir) [
        | some e ↦ (finished (err e), s)
        | none ↦ (removed, record s { dir_exists = set s.dir_exists id false })
      ])
      else (finished (err (error "No such file or directory")), s)
  advance_delete fault id opening s = (opening, s)
  advance_delete fault id opened s = (opened, s)
  advance_delete fault id removed s = (
    finished (ok (if s.loaded id then some id else none)),
    record s { loaded = set s.loaded id false },
  )
  advance_delete fault id (finished r) s = (finished r, s)

  unfoldable pub advance_phase : Faults → Operation → Phase → State engine → Phase × State engine
  unfolding advance_create advance_get advance_delete
  advance_phase fault (create id key) p s = advance_create fault id key p s
  advance_phase fault (get id) p s = advance_get fault id p s
  advance_phase fault (delete id) p s = advance_delete fault id p s

  abbrev pub advance : Faults → Task → State engine → Task × State engine
  advance fault task s =
      let (p, s') = advance_phase fault task.operation task.phase s in
      (record task { phase = p }, s')

  -- The store and the tasks that call it, by their numbers.
  pub record Tasks : Type 0 where
    pub state : State engine
    pub tasks : ℕ → Task

  -- The slots of `for_each_concurrent`: ten for the messages of the read channel, which are all
  -- but the updates and the deletions, and one for those of the write channel. Handling an update looks an
  -- index up, and creates it.
  abbrev pub IsSlot : Operation → ℕ → Type 0
  IsSlot (create id key) t = t ≤ 10
  IsSlot (get id) t = t ≤ 10
  IsSlot (delete id) t = t ≡ 10

  -- One task goes on to its next `await`, or a task that has answered makes place for another, of an
  -- allowed kind and of its channel.
  pub data Step (IsAllowed : Operation → Type 0) : Tasks → Tasks → Type 0 where
    go_on :
        (sys : Tasks) (fault : Faults) (t : ℕ)
        → Step IsAllowed sys (record {
          state = (advance fault (sys.tasks t) sys.state).1;
          tasks = set sys.tasks t (advance fault (sys.tasks t) sys.state).0;
        })
    arrive :
        (sys : Tasks) (t : ℕ) (operation : Operation) (r : Outcome IndexError (Option Uuid))
        → (sys.tasks t).phase ≡ finished r
        → IsAllowed operation
        → IsSlot operation t
        → Step IsAllowed sys (record sys {
          tasks = set sys.tasks t (record { operation = operation; phase = begun });
        })

  pub data Reach (IsAllowed : Operation → Type 0) (a : Tasks) : Tasks → Type 0 where
    here : Reach IsAllowed a a
    next : {b c : Tasks} → Reach IsAllowed a b → Step IsAllowed b c → Reach IsAllowed a c
