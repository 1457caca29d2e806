-- ===== src/IndexActor.antt =====
-- The actor that owns the indexes, meilisearch-http/src/index_controller/index_actor.rs, and the
-- update handler that it calls, update_handler.rs beside it. The engine, `milli`, is a parameter,
-- and so is what meilisearch-http/src/index does with one index, which is Index/Engine; `fault` says of each call of the
-- file system, of the database and of the runtime whether it fails.
pub mod Laws
pub mod Messages
pub mod Tasks
mod Tests
use transplant.Base.{
  ℕ, ◌≡◌, Bool, true, false, Option, none, some, List, if◌then◌else◌, set, String, ◌⊎◌, inl, inr,
}
use transplant.Base.Outcome.{Outcome, ok, err, panicked, map_err, ok_or}
use transplant.Base.Exec.{Exec, ◌>>=◌, ◌>>◌, pure, lift, gets, modify, attempt, spawn_blocking}
use transplant.Updates.{
  Uuid, DateTime, Processing, Processed, Failed, processing_id, processing_meta,
  processing_index_uuid, process, fail,
}

pub data IndexError : Type 0 where
  error : String → IndexError
  index_already_exists unexisting_index : IndexError
  heed_error : String → IndexError
  existing_primary_key : IndexError

-- The kinds of updates, `UpdateMeta` of mod.rs beside; the parts that only the engine reads are
-- types of the parameter below.
pub data UpdateMeta (Method Format Settings Facets : Type 0) : Type 0 where
  documents_addition : Method → Format → Option String → UpdateMeta Method Format Settings Facets
  clear_documents delete_documents : UpdateMeta Method Format Settings Facets
  settings_update : Settings → UpdateMeta Method Format Settings Facets
  facets_update : Facets → UpdateMeta Method Format Settings Facets

pub record IndexMeta : Type 0 where
  pub created_at : DateTime
  pub updated_at : DateTime
  pub primary_key : Option String

-- One index of the engine, and the functions of meilisearch-http/src/index on it. An update
-- returns the index that it leaves, with its result or the text of its error.
pub record Engine : Type 1 where
  pub Index : Type 0
  pub Method : Type 0
  pub Format : Type 0
  pub Settings : Type 0
  pub Facets : Type 0
  pub UpdateResult : Type 0
  pub Content : Type 0
  pub Query : Type 0
  pub SearchResult : Type 0
  pub Document : Type 0
  pub new_index : Index
  pub created_at : Index → DateTime
  pub updated_at : Index → DateTime
  pub primary_key : Index → Option String
  pub put_primary_key : Index → String → Index
  pub primary_key-put : (i : Index) (k : String) → primary_key (put_primary_key i k) ≡ some k
  pub update_documents :
      ℕ → Index → Format → Method → Content → Option String → Outcome String UpdateResult × Index
  pub clear : ℕ → Index → Outcome String UpdateResult × Index
  pub delete : ℕ → Index → Content → Outcome String UpdateResult × Index
  pub update_settings : ℕ → Index → Settings → Outcome String UpdateResult × Index
  pub update_facets : ℕ → Index → Facets → Outcome String UpdateResult × Index
  pub perform_search : Index → Query → Outcome String SearchResult
  pub settings : Index → Outcome String Settings
  pub retrieve_documents : Index → ℕ → ℕ → Option (List String) → Outcome String (List Document)
  pub retrieve_document : Index → String → Option (List String) → Outcome String Document

-- The calls that can fail, with the name of the task or the transaction that they are in.
pub data Call : Type 0 where
  create_dir open_env remove_dir join join_meta : Call
  write_txn put_key commit : Call
  read_txn read_created_at read_updated_at read_primary_key read_own_key : Call

abbrev pub Faults : Type 0
Faults = Call → Option IndexError

abbrev pub no_faults : Faults
no_faults c = none

module _ (engine : Engine) where
  open engine use {
    Index, Method, Format, Settings, Facets, UpdateResult, Content, Query, SearchResult, Document,
    new_index, primary_key, put_primary_key,
  }

  -- `HeedIndexStore` and its directories `index-<uuid>`: `loaded` are the keys of the map, and
  -- `index` is what the directory holds.
  pub record State : Type 0 where
    pub loaded : Uuid → Bool
    pub dir_exists : Uuid → Bool
    pub index : Uuid → Index

  abbrev pub Meta : Type 0
  Meta = UpdateMeta Method Format Settings Facets

  abbrev pub make_dir : Uuid → State → State
  make_dir id s = record s {
    dir_exists = set s.dir_exists id true;
    index = if s.dir_exists id then s.index else set s.index id new_index;
  }

  abbrev pub insert : Uuid → State → State
  insert id s = record s { loaded = set s.loaded id true }

  abbrev pub write : Uuid → Index → State → State
  write id i s = record s { index = set s.index id i }

  -- An index that is returned is named by its uuid.
  unfoldable pub open_index : Faults → Uuid → Exec State IndexError Uuid
  open_index fault id = do
    attempt (fault create_dir)
    modify (make_dir id)
    attempt (fault open_env)
    pure id

  unfoldable pub set_primary_key : Faults → Uuid → Option String → Exec State IndexError (Unit {0})
  set_primary_key fault id none = pure tt
  set_primary_key fault id (some key) = do
    attempt (fault write_txn)
    i ← gets (λ s. s.index id)
    attempt (fault put_key)
    let i' = put_primary_key i key
    attempt (fault commit)
    modify (write id i')

  unfoldable pub create : Faults → Uuid → Option String → Exec State IndexError Uuid
  unfolding open_index set_primary_key
  create fault id key s =
      if s.dir_exists id
      then (err index_already_exists, s)
      else ((do
        attempt (fault join)
        i ← open_index fault id
        set_primary_key fault i key
        modify (insert id)
        pure i)
          s)

  unfoldable pub get : Faults → Uuid → Exec State IndexError (Option Uuid)
  unfolding open_index
  get fault id s =
      if s.loaded id
      then (ok (some id), s)
      else if s.dir_exists id
      then ((do attempt (fault join); i ← open_index fault id; modify (insert id); pure (some i)) s)
      else (ok none, s)

  unfoldable pub delete_index : Faults → Uuid → Exec State IndexError (Option Uuid)
  delete_index fault id s =
      if s.dir_exists id
      then ((do
        attempt (fault remove_dir)
        found ← gets (λ s. s.loaded id)
        modify (λ s. record s {
          loaded = set s.loaded id false;
          dir_exists = set s.dir_exists id false;
        })
        pure (if found then some id else none))
          s)
      else (err (error "No such file or directory"), s)

  -- `IndexMeta::new_txn`, on the index that the transaction sees.
  abbrev pub new_txn : Faults → Index → Exec State IndexError IndexMeta
  new_txn fault i = do
    attempt (fault read_created_at)
    attempt (fault read_updated_at)
    attempt (fault read_primary_key)
    pure (record {
      created_at = engine.created_at i;
      updated_at = engine.updated_at i;
      primary_key = primary_key i;
    })

  abbrev pub new_meta : Faults → Uuid → Exec State IndexError IndexMeta
  new_meta fault id = do attempt (fault read_txn); i ← gets (λ s. s.index id); new_txn fault i

  unfoldable pub handle_create_index :
      Faults → Uuid → Option String → Exec State IndexError IndexMeta
  unfolding create
  handle_create_index fault id key = do
    i ← create fault id key
    attempt (fault join_meta)
    new_meta fault i

  unfoldable pub handle_get_meta : Faults → Uuid → Exec State IndexError IndexMeta
  unfolding get
  handle_get_meta fault id = do
    found ← get fault id
    elim found [
      | none ↦ lift (err unexisting_index)
      | some i ↦ do attempt (fault join_meta); new_meta fault i
    ]

  unfoldable pub handle_update_index :
      Faults → Uuid → Option String → Exec State IndexError IndexMeta
  unfolding get
  handle_update_index fault id key = do
    found ← get fault id
    i ← lift (ok_or unexisting_index found)
    attempt (fault join_meta)
    elim key [
      | none ↦ new_meta fault i
      | some k ↦ do
        attempt (fault write_txn)
        old ← gets (λ s. s.index i)
        attempt (fault read_own_key)
        elim (primary_key old) [
          | some k' ↦ lift (err existing_primary_key)
          | none ↦ do
            attempt (fault put_key)
            let changed = put_primary_key old k
            meta ← new_txn fault changed
            attempt (fault commit)
            modify (write i changed)
            pure meta
        ]
    ]

  unfoldable pub handle_delete : Faults → Uuid → Exec State IndexError (Unit {0})
  unfolding delete_index
  handle_delete fault id = do delete_index fault id; pure tt

  -- A blocking task that only reads the index; a panic of it is its `JoinError`.
  abbrev pub read_index :
      {A : Type 0} → Faults → Uuid → (Index → Outcome String A) → Exec State IndexError A
  read_index fault id read = do
    found ← get fault id
    i ← lift (ok_or unexisting_index found)
    attempt (fault join_meta)
    spawn_blocking error (do at ← gets (λ s. s.index i); lift (map_err error (read at)))

  abbrev pub handle_settings : Faults → Uuid → Exec State IndexError Settings
  handle_settings fault id = read_index fault id engine.settings

  abbrev pub handle_search : Faults → Uuid → Query → Exec State IndexError SearchResult
  handle_search fault id query = read_index fault id (λ i. engine.perform_search i query)

  abbrev pub handle_fetch_documents :
      Faults → Uuid → ℕ → ℕ → Option (List String) → Exec State IndexError (List Document)
  handle_fetch_documents fault id offset limit attributes =
      read_index fault id (λ i. engine.retrieve_documents i offset limit attributes)

  abbrev pub handle_fetch_document :
      Faults → Uuid → String → Option (List String) → Exec State IndexError Document
  handle_fetch_document fault id doc_id attributes =
      read_index fault id (λ i. engine.retrieve_document i doc_id attributes)

  -- `UpdateHandler::handle_update`: the engine's function for the update's kind.
  unfoldable pub run_update :
      Processing Meta → Content → Index → Outcome String UpdateResult × Index
  run_update meta content i = elim (processing_meta meta) [
    | documents_addition method format key ↦
        engine.update_documents (processing_id meta) i format method content key
    | clear_documents ↦ engine.clear (processing_id meta) i
    | delete_documents ↦ engine.delete (processing_id meta) i content
    | settings_update s ↦ engine.update_settings (processing_id meta) i s
    | facets_update f ↦ engine.update_facets (processing_id meta) i f
  ]

  abbrev pub conclude :
      Processing Meta
      → DateTime
      → Outcome String UpdateResult
      → Outcome IndexError (Processed Meta UpdateResult ⊎ Failed Meta String)
  conclude meta now (ok result) = ok (inl (process meta result now))
  conclude meta now (err e) = ok (inr (fail meta e now))
  conclude meta now (panicked m) = err (error m)

  -- A panic of the blocking task is its `JoinError`.
  unfoldable pub handle_update :
      Faults
      → DateTime
      → Processing Meta
      → Content
      → Exec State IndexError (Processed Meta UpdateResult ⊎ Failed Meta String)
  unfolding get create run_update
  handle_update fault now meta file = do
    found ← get fault (processing_index_uuid meta)
    i ← elim found [ some i ↦ pure i | none ↦ create fault (processing_index_uuid meta) none ]
    attempt (fault join_meta)
    at ← gets (λ s. s.index i)
    let (r, after) = run_update meta file at
    modify (write i after)
    lift (conclude meta now r)
