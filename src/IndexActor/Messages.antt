-- ===== src/IndexActor/Messages.antt =====
-- The messages of the index actor and its handle,
-- meilisearch-http/src/index_controller/index_actor.rs. The messages of the two channels are in one
-- order here, the order in which they are handled.
use transplant.Base.{ℕ, ◌≡◌, true, Option, none, some, List, arith, ◌⊎◌, String}
use transplant.Base.Outcome.{Outcome, err, ok_or}
use transplant.Base.Exec.{Exec, ◌>>=◌, ◌>>◌, pure, lift, attempt, gets, modify}
use transplant.Base.Actor.{Actor, ask}
use transplant.Base.Keeps.{Order, bind-keeps}
use transplant.Updates.{Uuid, DateTime, Processing, Processed, Failed, processing_index_uuid}
use transplant.IndexActor.{
  Engine, State, Faults, IndexMeta, IndexError, Meta, create, get, delete_index, open_index,
  set_primary_key, handle_create_index, handle_get_meta, handle_update_index, handle_delete,
  handle_update, handle_settings, handle_search, handle_fetch_documents, handle_fetch_document,
  read_index, new_txn, write, put_key, commit, write_txn, join_meta, read_own_key,
  existing_primary_key, unexisting_index,
}

abbrev killed : String
killed = "IndexActor has been killed"

module _ (engine : Engine) where
  open engine use {Settings, UpdateResult, Content, Query, SearchResult, Document}

  pub data IndexMsg : Type 0 where
    create_msg : Uuid → Option String → IndexMsg
    update_msg : Processing (Meta engine) → Content → IndexMsg
    search_msg : Uuid → Query → IndexMsg
    settings_msg : Uuid → IndexMsg
    documents_msg : Uuid → Option (List String) → ℕ → ℕ → IndexMsg
    document_msg : Uuid → Option (List String) → String → IndexMsg
    delete_msg get_meta_msg : Uuid → IndexMsg
    update_index_msg : Uuid → Option String → IndexMsg

  -- What goes back through `ret`.
  pub data Reply : Type 0 where
    meta_reply : IndexMeta → Reply
    update_reply : Processed (Meta engine) UpdateResult ⊎ Failed (Meta engine) String → Reply
    search_reply : SearchResult → Reply
    settings_reply : Settings → Reply
    documents_reply : List Document → Reply
    document_reply : Document → Reply
    nothing : Reply

  unfoldable pub handle_message :
      Faults → DateTime → IndexMsg → Exec (State engine) IndexError Reply
  handle_message fault now (create_msg id key) = do
    m ← handle_create_index engine fault id key
    pure (meta_reply m)
  handle_message fault now (update_msg meta file) = do
    r ← handle_update engine fault now meta file
    pure (update_reply r)
  handle_message fault now (search_msg id query) = do
    r ← handle_search engine fault id query
    pure (search_reply r)
  handle_message fault now (settings_msg id) = do
    r ← handle_settings engine fault id
    pure (settings_reply r)
  handle_message fault now (documents_msg id attributes offset limit) = do
    r ← handle_fetch_documents engine fault id offset limit attributes
    pure (documents_reply r)
  handle_message fault now (document_msg id attributes doc_id) = do
    r ← handle_fetch_document engine fault id doc_id attributes
    pure (document_reply r)
  handle_message fault now (delete_msg id) = do handle_delete engine fault id; pure nothing
  handle_message fault now (get_meta_msg id) = do
    m ← handle_get_meta engine fault id
    pure (meta_reply m)
  handle_message fault now (update_index_msg id key) = do
    m ← handle_update_index engine fault id key
    pure (meta_reply m)

  -- The methods of `IndexActorHandle`.
  abbrev pub ask_create_index :
      Faults → Uuid → Option String → Exec (Actor (State engine)) IndexError IndexMeta
  ask_create_index fault id key = ask killed (handle_create_index engine fault id key)

  abbrev pub ask_update :
      Faults
      → DateTime
      → Processing (Meta engine)
      → Content
      → Exec
          (Actor (State engine))
          IndexError
          (Processed (Meta engine) UpdateResult ⊎ Failed (Meta engine) String)
  ask_update fault now meta file = ask killed (handle_update engine fault now meta file)

  abbrev pub ask_search :
      Faults → Uuid → Query → Exec (Actor (State engine)) IndexError SearchResult
  ask_search fault id query = ask killed (handle_search engine fault id query)

  abbrev pub ask_settings : Faults → Uuid → Exec (Actor (State engine)) IndexError Settings
  ask_settings fault id = ask killed (handle_settings engine fault id)

  abbrev pub ask_documents :
      Faults
      → Uuid
      → ℕ
      → ℕ
      → Option (List String)
      → Exec (Actor (State engine)) IndexError (List Document)
  ask_documents fault id offset limit attributes =
      ask killed (handle_fetch_documents engine fault id offset limit attributes)

  abbrev pub ask_document :
      Faults
      → Uuid
      → String
      → Option (List String)
      → Exec (Actor (State engine)) IndexError Document
  ask_document fault id doc_id attributes =
      ask killed (handle_fetch_document engine fault id doc_id attributes)

  abbrev pub ask_delete_index : Faults → Uuid → Exec (Actor (State engine)) IndexError (Unit {0})
  ask_delete_index fault id = ask killed (handle_delete engine fault id)

  abbrev pub ask_index_meta : Faults → Uuid → Exec (Actor (State engine)) IndexError IndexMeta
  ask_index_meta fault id = ask killed (handle_get_meta engine fault id)

  abbrev pub ask_update_index :
      Faults → Uuid → Option String → Exec (Actor (State engine)) IndexError IndexMeta
  ask_update_index fault id key = ask killed (handle_update_index engine fault id key)

  -- An index that is in the map has its directory.
  abbrev pub HasDirs : State engine → Type 0
  HasDirs s = (j : Uuid) → s.loaded j ≡ true → s.dir_exists j ≡ true

  abbrev KeepsDirs : State engine → State engine → Type 0
  KeepsDirs s s' = HasDirs s → HasDirs s'

  keeps_dirs : Order KeepsDirs
  keeps_dirs = record { same = λ s h. h; next = λ s s' s'' p q h. q (p h) }

  create_index-KeepsDirs :
      (fault : Faults) (id : Uuid) (key : Option String) (s : State engine)
      → KeepsDirs s (handle_create_index engine fault id key s).1
  unfolding handle_create_index create open_index set_primary_key
  create_index-KeepsDirs fault id none s h j e = ground (arith, h j, h id)
  create_index-KeepsDirs fault id (some k) s h j e = ground (arith, h j, h id)

  get-KeepsDirs :
      (fault : Faults) (id : Uuid) (s : State engine) → KeepsDirs s (get engine fault id s).1
  unfolding get open_index
  get-KeepsDirs fault id s h j e = ground (arith, h j, h id)

  create-KeepsDirs :
      (fault : Faults) (id : Uuid) (s : State engine)
      → KeepsDirs s (create engine fault id none s).1
  unfolding create open_index set_primary_key
  create-KeepsDirs fault id s h j e = ground (arith, h j, h id)

  get_meta-KeepsDirs :
      (fault : Faults) (id : Uuid) (s : State engine)
      → KeepsDirs s (handle_get_meta engine fault id s).1
  unfolding handle_get_meta get open_index
  get_meta-KeepsDirs fault id s h j e = ground (arith, h j, h id)

  -- What `handle_update_index` does with the index that it found, for a new primary key.
  abbrev keyed : Faults → Uuid → String → Option Uuid → Exec (State engine) IndexError IndexMeta
  keyed fault id k found = do
    i ← lift (ok_or unexisting_index found)
    attempt (fault join_meta)
    attempt (fault write_txn)
    old ← gets (λ s. s.index i)
    attempt (fault read_own_key)
    elim (engine.primary_key old) [
      | some k' ↦ lift (err existing_primary_key)
      | none ↦ do
        attempt (fault put_key)
        let changed = engine.put_primary_key old k
        meta ← new_txn engine fault changed
        attempt (fault commit)
        modify (write engine i changed)
        pure meta
    ]

  keyed-KeepsDirs :
      (fault : Faults) (id : Uuid) (k : String) (found : Option Uuid) (s : State engine)
      → KeepsDirs s (keyed fault id k found s).1
  keyed-KeepsDirs fault id k none s h j e = h j e
  keyed-KeepsDirs fault id k (some i) s h j e = ground (arith, h j)

  update_index-KeepsDirs :
      (fault : Faults) (id : Uuid) (key : Option String) (s : State engine)
      → KeepsDirs s (handle_update_index engine fault id key s).1
  unfolding handle_update_index get open_index
  update_index-KeepsDirs fault id none s = λ h j e. ground (arith, h j, h id)
  update_index-KeepsDirs fault id (some k) s =
      bind-keeps keeps_dirs (get engine fault id) (keyed fault id k) (get-KeepsDirs fault id)
        (λ found s₁ is_found. keyed-KeepsDirs fault id k found (get engine fault id s₁).1) s

  delete-KeepsDirs :
      (fault : Faults) (id : Uuid) (s : State engine)
      → KeepsDirs s (handle_delete engine fault id s).1
  unfolding handle_delete delete_index
  delete-KeepsDirs fault id s h j e = ground (arith, h j, h id)

  update-KeepsDirs :
      (fault : Faults) (now : DateTime) (meta : Processing (Meta engine)) (file : Content)
      (s : State engine)
      → KeepsDirs s (handle_update engine fault now meta file s).1
  unfolding handle_update get create open_index set_primary_key
  update-KeepsDirs fault now meta file s h j e = ground (arith, h j, h (processing_index_uuid meta))

  read-KeepsDirs :
      {A : Type 0} (fault : Faults) (id : Uuid) (read : engine.Index → Outcome String A)
      (s : State engine)
      → KeepsDirs s (read_index engine fault id read s).1
  unfolding get open_index
  read-KeepsDirs fault id read s h j e = ground (arith, h j, h id)

  -- If every index in the map has its directory, then it is so after any message, whatever
  -- fails.
  pub index_message-HasDirs :
      (fault : Faults) (now : DateTime) (m : IndexMsg) (s : State engine)
      → HasDirs s
      → HasDirs (handle_message fault now m s).1
  unfolding handle_message
  index_message-HasDirs fault now (create_msg id key) =
      bind-keeps keeps_dirs (handle_create_index engine fault id key) (λ m. pure (meta_reply m))
        (create_index-KeepsDirs fault id key) (λ m s h x. x)
  index_message-HasDirs fault now (update_msg meta file) =
      bind-keeps keeps_dirs (handle_update engine fault now meta file) (λ r. pure (update_reply r))
        (update-KeepsDirs fault now meta file) (λ r s h x. x)
  index_message-HasDirs fault now (search_msg id query) =
      bind-keeps keeps_dirs (handle_search engine fault id query) (λ r. pure (search_reply r))
        (read-KeepsDirs fault id (λ i. engine.perform_search i query)) (λ r s h x. x)
  index_message-HasDirs fault now (settings_msg id) =
      bind-keeps keeps_dirs (handle_settings engine fault id) (λ r. pure (settings_reply r))
        (read-KeepsDirs fault id engine.settings) (λ r s h x. x)
  index_message-HasDirs fault now (documents_msg id attributes offset limit) =
      bind-keeps keeps_dirs (handle_fetch_documents engine fault id offset limit attributes)
        (λ r. pure (documents_reply r))
        (read-KeepsDirs fault id (λ i. engine.retrieve_documents i offset limit attributes))
        (λ r s h x. x)
  index_message-HasDirs fault now (document_msg id attributes doc_id) =
      bind-keeps keeps_dirs (handle_fetch_document engine fault id doc_id attributes)
        (λ r. pure (document_reply r))
        (read-KeepsDirs fault id (λ i. engine.retrieve_document i doc_id attributes)) (λ r s h x. x)
  index_message-HasDirs fault now (delete_msg id) =
      bind-keeps keeps_dirs (handle_delete engine fault id) (λ r. pure nothing)
        (delete-KeepsDirs fault id) (λ r s h x. x)
  index_message-HasDirs fault now (get_meta_msg id) =
      bind-keeps keeps_dirs (handle_get_meta engine fault id) (λ m. pure (meta_reply m))
        (get_meta-KeepsDirs fault id) (λ m s h x. x)
  index_message-HasDirs fault now (update_index_msg id key) =
      bind-keeps keeps_dirs (handle_update_index engine fault id key) (λ m. pure (meta_reply m))
        (update_index-KeepsDirs fault id key) (λ m s h x. x)
