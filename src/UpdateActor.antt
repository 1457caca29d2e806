-- ===== src/UpdateActor.antt =====
-- The actor that owns the update stores of all the indexes,
-- meilisearch-http/src/index_controller/update_actor.rs. A function takes `fault`, which says of
-- each call of the file system, of the database and of the runtime whether it fails, `new_v4`, the
-- value of `Uuid::new_v4()`, and `now`, the clock's reading.
pub mod Laws
pub mod Refused
pub mod Files
pub mod RoundTrip
pub mod Settled
pub mod Messages
mod Tests
use transplant.Base.{
  ℕ, ◌≡◌, Bool, true, false, not, ◌&&◌, ◌||◌, Option, none, some, List, [], ◌∷◌, ◌++◌,
  if◌then◌else◌, ltb, drop, length, set, String, str_eq, ◌+◌,
}
use transplant.Base.Outcome.{Outcome, ok, err, panicked, map_err, ok_or}
use transplant.Base.Exec.{Exec, ◌>>=◌, ◌>>◌, pure, lift, gets, modify, attempt, spawn_blocking}
use transplant.Base.Actor.{Actor, ask}
use transplant.Heed.{Heed}
use transplant.Heed.Keys.{nat_key}
use transplant.Updates.{Uuid, DateTime, UpdateStatus, Pending, Processed, Failed, Aborted, pending}
use transplant.UpdateStore as Queue
use transplant.UpdateStore.{Error, Content, Tables, Store, register_update}
use transplant.UpdateStore.Read.{list, meta}

-- What is boxed in `UpdateError::Error`.
pub data Cause : Type 0 where
  io_error payload_error json_error join_error open_error : String → Cause
  store_error : Error → Cause

pub data UpdateError : Type 0 where
  error : Cause → UpdateError
  unexisting_index : Uuid → UpdateError
  unexisting_update : ℕ → UpdateError

-- The calls that can fail, those of the update stores aside; `join` is a blocking task that is not
-- run, and `write_chunk` is the write of the
-- chunk that the given number of chunks comes after.
pub data Call : Type 0 where
  open_file flush seek metadata seek_again join create_dir open_env remove_dir : Call
  write_chunk : ℕ → Call

abbrev pub Faults : Type 0
Faults = Call → Option Cause

abbrev pub no_faults : Faults
no_faults c = none

-- One item of the payload's channel.
pub data Chunk : Type 0 where
  bytes : Content → Chunk
  broken : String → Chunk

-- The JSON crates: the checker, and the error that `serde_json` reports, if any.
pub record Json : Type 0 where
  pub is_accepted : Content → Bool
  pub serde_error : Content → Option String

abbrev pub failing : Option Cause → Option UpdateError
failing none = none
failing (some c) = some (error c)

abbrev pub failed_join : String → UpdateError
failed_join m = error (join_error m)

-- The file's content after the `written` bytes, at its start, over the `old` ones.
abbrev pub over : Content → Content → Content
over written old = written ++ drop (length written) old

abbrev pub content_of : Option Content → Content
content_of none = []
content_of (some c) = c

module _ (heed : Heed nat_key) where
  -- The state that the actor and the disk keep. `dir_exists` and `store` describe the directory
  -- `updates-<uuid>` and the store in it, `loaded` the keys of the map, and `files` the folder
  -- `update_files`, which all the stores share.
  pub record State (M N E : Type 0) : Type 0 where
    pub loaded : Uuid → Bool
    pub dir_exists : Uuid → Bool
    pub store : Uuid → Store heed M N E
    pub files : String → Option Content

module _ (heed : Heed nat_key) (json : Json) (path_of : Uuid → String) where
  module _ {M N E : Type 0} where
    -- A store that is opened over the tables of its directory: nothing is being processed and its
    -- loop runs, with no message in its channel.
    abbrev pub opened : Tables heed M N E → Store heed M N E
    opened env = record {
      env = env;
      processing = none;
      files = λ path. none;
      notifications = 0;
      loop_running = true;
    }

    -- The tables of a directory that has just been made.
    abbrev pub empty_tables : Tables heed M N E
    empty_tables = record {
      pending_meta = heed.empty (Pending M);
      pending = heed.empty String;
      processed_meta = heed.empty (Processed M N);
      failed_meta = heed.empty (Failed M E);
      aborted_meta = heed.empty (Aborted M);
    }

    -- A method of the update store of an index, on the shared files.
    abbrev pub in_store :
        {A : Type 0}
        → Uuid
        → Exec (Store heed M N E) Error A
        → Exec (State heed M N E) UpdateError A
    in_store index m st =
        let (r, s) = m (record (st.store index) { files = st.files }) in
        (
          map_err (λ e. error (store_error e)) r,
          record st { store = set st.store index s; files = s.files },
        )

    -- `create_dir_all(&path).unwrap()`.
    abbrev pub unwrap : Option Cause → Exec (State heed M N E) UpdateError (Unit {0})
    unwrap none s = (ok tt, s)
    unwrap (some c) s = (panicked "called `Result::unwrap()` on an `Err` value", s)

    abbrev pub make_dir : Uuid → State heed M N E → State heed M N E
    make_dir index st = record st {
      dir_exists = set st.dir_exists index true;
      store = if st.dir_exists index then st.store else set st.store index (opened empty_tables);
    }

    abbrev pub load : Uuid → State heed M N E → State heed M N E
    load index st = record st {
      loaded = set st.loaded index true;
      store = set st.store index (opened (st.store index).env);
    }

    -- `MapUpdateStoreStore`. A store that is returned is named by its index.
    unfoldable pub get_or_create : Faults → Uuid → Exec (State heed M N E) UpdateError Uuid
    get_or_create fault index st =
        if st.loaded index
        then (ok index, st)
        else ((do
          unwrap (fault create_dir)
          modify (make_dir index)
          attempt (failing (fault open_env))
          modify (load index)
          pure index)
            st)

    unfoldable pub get_store : Faults → Uuid → Exec (State heed M N E) UpdateError (Option Uuid)
    get_store fault index st =
        if st.loaded index
        then (ok (some index), st)
        else if st.dir_exists index
        then ((do attempt (failing (fault open_env)); modify (load index); pure (some index)) st)
        else (ok none, st)

    abbrev pub forget : Uuid → State heed M N E → State heed M N E
    forget index st = record st { loaded = set st.loaded index false }

    abbrev pub remove_dir_all : Uuid → State heed M N E → State heed M N E
    remove_dir_all index st = record st { dir_exists = set st.dir_exists index false }

    unfoldable pub delete_store : Faults → Uuid → Exec (State heed M N E) UpdateError (Option Uuid)
    delete_store fault index st =
        let found = st.loaded index in
        let st' = forget index st in
        if found || st'.dir_exists index
        then ((do
          unwrap (fault remove_dir)
          modify (remove_dir_all index)
          pure (if found then some index else none))
            st')
        else (ok (if found then some index else none), st')

    abbrev pub put_file : String → Content → State heed M N E → State heed M N E
    put_file path c st = record st { files = λ p. if str_eq path p then some c else st.files p }

    -- The loop over the payload; `n` chunks are written.
    unfoldable pub write_payload :
        Faults
        → String
        → Content
        → ℕ
        → Content
        → List Chunk
        → Exec (State heed M N E) UpdateError Content
    write_payload fault path old n written [] = pure (over written old)
    write_payload fault path old n written (bytes b ∷ l) = do
      attempt (failing (fault (write_chunk n)))
      modify (put_file path (over (written ++ b) old))
      write_payload fault path old (n + 1) (written ++ b) l
    write_payload fault path old n written (broken e ∷ l) = lift (err (error (payload_error e)))

    -- The check of a payload that is not empty.
    unfoldable pub check_payload : Faults → Content → Exec (State heed M N E) UpdateError (Unit {0})
    check_payload fault content = do
      attempt (failing (fault metadata))
      if not (ltb 0 (length content)) || json.is_accepted content then pure tt else (do
        attempt (failing (fault seek_again))
        attempt (elim (json.serde_error content) [
          | none ↦ none
          | some e ↦ some (error (json_error e))
        ]))

    -- The file `update_<new_v4>`, opened without being cut, and written.
    unfoldable pub receive_payload :
        Faults → Uuid → List Chunk → Exec (State heed M N E) UpdateError Content
    unfolding write_payload
    receive_payload fault new_v4 payload = do
      let path = path_of new_v4
      attempt (failing (fault open_file))
      old ← gets (λ st. content_of (st.files path))
      modify (put_file path old)
      content ← write_payload fault path old 0 [] payload
      attempt (failing (fault flush))
      attempt (failing (fault seek))
      pure content

    unfoldable pub handle_update :
        Faults
        → Queue.Faults
        → Uuid
        → M
        → List Chunk
        → Uuid
        → DateTime
        → Exec (State heed M N E) UpdateError (UpdateStatus M N E)
    unfolding get_or_create receive_payload check_payload
    handle_update fault stored index meta payload new_v4 now = do
      update_store ← get_or_create fault index
      content ← receive_payload fault new_v4 payload
      attempt (failing (fault join))
      spawn_blocking failed_join (do
        check_payload fault content
        p ← in_store update_store (register_update heed stored meta (path_of new_v4) index now)
        pure (pending p))

    unfoldable pub handle_list_updates :
        Faults
        → Queue.Faults
        → Uuid
        → Exec (State heed M N E) UpdateError (List (UpdateStatus M N E))
    unfolding get_store
    handle_list_updates fault stored index = do
      found ← get_store fault index
      attempt (failing (fault join))
      spawn_blocking failed_join (do
        update_store ← lift (ok_or (unexisting_index index) found)
        in_store update_store (list heed stored))

    unfoldable pub handle_get_update :
        Faults → Queue.Faults → Uuid → ℕ → Exec (State heed M N E) UpdateError (UpdateStatus M N E)
    unfolding get_store
    handle_get_update fault stored index id = do
      found ← get_store fault index
      update_store ← lift (ok_or (unexisting_index index) found)
      result ← in_store update_store (meta heed stored id)
      lift (ok_or (unexisting_update id) result)

    -- The task that waits for the store's last owner and closes it has no part here.
    unfoldable pub handle_delete : Faults → Uuid → Exec (State heed M N E) UpdateError (Unit {0})
    unfolding delete_store
    handle_delete fault index = do delete_store fault index; pure tt

    unfoldable pub handle_create : Faults → Uuid → Exec (State heed M N E) UpdateError (Unit {0})
    unfolding get_or_create
    handle_create fault index = do get_or_create fault index; pure tt
