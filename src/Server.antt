-- ===== src/Server.antt =====
-- How the server starts: meilisearch-http/src/main.rs, `Data::new` of meilisearch-http/src/data/mod.rs,
-- and the `new` of the controller, of the three handles and of their actors and stores, in
-- meilisearch-http/src/index_controller. The state is what is on the disk; `fault` says of each call
-- of the file system, of the databases and of the runtime whether it fails.
pub mod Launch
pub mod Restart
pub mod Routing
pub mod Constant
pub mod Apart
pub mod Access
pub mod Production
pub mod Toy
mod Tests
use transplant.Base.{ℕ, Bool, true, false, not, Option, none, some, if◌then◌else◌, String, str_eq}
use transplant.Base.Outcome.{Outcome, ok, err, panicked}
use transplant.Base.Exec.{Exec, ◌>>=◌, ◌>>◌, pure, lift, gets, modify, attempt}
use transplant.Base.Actor.{Actor}
use transplant.Updates.{Uuid}
use transplant.UpdateStore.{Content, Tables}
use transplant.UpdateActor as Updating
use transplant.UuidResolver as Names
use transplant.IndexActor as Indexing
use transplant.Index.Handler.{UpdateHandler}
use transplant.IndexController.{Controller, Stores}
use transplant.Routes.{Crates, world}
use transplant.Authentication.{ApiKeys, new_api_keys}
use transplant.Options.{IndexerOpts, Opt, default_indexer_opts}
use transplant.Options.Tls.{Rustls, Opening, get_ssl_config}

-- The calls that can fail; the addresses are bound with TLS or without.
pub data Call : Type 0 where
  create_data_dir create_uuids_dir open_uuids create_database build_pool create_files_dir : Call
  bind bind_rustls : Call

abbrev pub Faults : Type 0
Faults = Call → Option String

abbrev pub no_faults : Faults
no_faults c = none

-- What the code uses of other crates to start: `Path::join`, the thread pools of `rayon` by their
-- numbers of threads, `CompressionType::None`, and the digest.
pub record Host (CompressionType ThreadPool : Type 0) : Type 0 where
  pub join : String → String → String
  pub build : ℕ → ThreadPool
  pub uncompressed : CompressionType
  pub digest : String → String

-- The crates with the update handler that the server has been started with.
abbrev pub with_handler :
    (crates : Crates)
    → UpdateHandler crates.builders.CompressionType crates.builders.ThreadPool
    → Crates
with_handler crates h = record crates { handler = h }

module _ (crates : Crates)
    (host : Host crates.builders.CompressionType crates.builders.ThreadPool) where
  open crates.builders use {CompressionType, ThreadPool}

  -- What is on the disk: the directories that are made at the start, and what the three stores keep.
  pub record Disk : Type 0 where
    pub made : String → Bool
    pub names : Names.Store crates.names crates.uuids
    pub update_dir : Uuid → Bool
    pub tables :
        Uuid
        → Tables crates.queue
            (Indexing.Meta (world crates).engine)
            (world crates).engine.UpdateResult
            String
    pub files : String → Option Content
    pub index_dir : Uuid → Bool
    pub index : Uuid → crates.milli.Index

  abbrev Handler : Type 0
  Handler = UpdateHandler CompressionType ThreadPool

  -- `create_dir_all`; a directory's parents are not told apart from it.
  abbrev pub make : String → Disk → Disk
  make path d = record d { made = λ p. if str_eq path p then true else d.made p }

  -- `HeedUuidStore::new`.
  unfoldable pub new_uuid_store :
      Faults → String → Exec Disk String (Names.Store crates.names crates.uuids)
  new_uuid_store fault path = do
    attempt (fault create_uuids_dir)
    modify (make (host.join path "index_uuids"))
    attempt (fault open_uuids)
    attempt (fault create_database)
    gets (λ d. d.names)

  -- `UuidResolverHandle::new`.
  unfoldable pub new_uuid_resolver :
      Faults → String → Exec Disk String (Actor (Names.Store crates.names crates.uuids))
  unfolding new_uuid_store
  new_uuid_resolver fault path = do
    store ← new_uuid_store fault path
    pure (record { running = true; state = store })

  unfoldable pub new_update_handler :
      Faults → IndexerOpts CompressionType → Exec Disk String Handler
  new_update_handler fault opt = do
    attempt (fault build_pool)
    pure (record {
      max_nb_chunks = opt.max_nb_chunks;
      chunk_compression_level = opt.chunk_compression_level;
      thread_pool = host.build (elim opt.indexing_jobs [ none ↦ 0 | some n ↦ n ]);
      log_frequency = opt.log_every_n;
      max_memory = opt.max_memory;
      linked_hash_map_size = opt.linked_hash_map_size;
      chunk_compression_type = opt.chunk_compression_type;
      chunk_fusing_shrink_size = opt.chunk_fusing_shrink_size;
    })

  -- `IndexActor::new`: the update handler of the actor, and the store that no index is loaded in.
  unfoldable pub new_index_actor :
      Faults
      → Exec Disk String ((h : Handler) × Indexing.State (world (with_handler crates h)).engine)
  unfolding new_update_handler
  new_index_actor fault = do
    handler ← new_update_handler fault (default_indexer_opts host.uncompressed)
    d ← gets (λ d. d)
    pure (handler, record { loaded = λ u. false; dir_exists = d.index_dir; index = d.index })

  -- `IndexActorHandle::new`.
  unfoldable pub new_index_handle :
      Faults
      → Exec Disk String
          ((h : Handler) × Actor (Indexing.State (world (with_handler crates h)).engine))
  unfolding new_index_actor
  new_index_handle fault = do
    actor ← new_index_actor fault
    pure (actor.0, record { running = true; state = actor.1 })

  -- `UpdateActor::new`, which makes the directory of the update files.
  unfoldable pub new_update_actor : Faults → String → Exec Disk String (Unit {0})
  new_update_actor fault path = do
    let folder = host.join path "update_files"
    attempt (fault create_files_dir)
    modify (make folder)
    d ← gets (λ d. d)
    if d.made folder then pure tt else lift (panicked "assertion failed: path.exists()")

  -- `UpdateActorHandle::new`; a store is opened when it is asked for.
  unfoldable pub new_update_handle :
      Faults → String → Exec Disk String (Actor (Stores (world crates)))
  unfolding new_update_actor
  new_update_handle fault path = do
    new_update_actor fault (host.join path "updates")
    d ← gets (λ d. d)
    pure (record {
      running = true;
      state = record {
        loaded = λ u. false;
        dir_exists = d.update_dir;
        store = λ u. Updating.opened crates.queue crates.json crates.path_of (d.tables u);
        files = d.files;
      };
    })

  -- `IndexController::new`, with the update handler that its actor of the indexes is made with.
  unfoldable pub new_controller :
      Faults
      → String
      → Exec Disk String ((h : Handler) × Controller (world (with_handler crates h)))
  unfolding new_uuid_resolver new_index_handle new_update_handle
  new_controller fault path = do
    uuid_resolver ← new_uuid_resolver fault path
    index_actor ← new_index_handle fault
    update_handle ← new_update_handle fault path
    pure (
      index_actor.0,
      record { resolver = uuid_resolver; updates = update_handle; indexes = index_actor.1 },
    )

  -- `Data`; the sizes are those of the memory maps of the environments, on a 64-bit machine.
  pub record Data : Type 0 where
    pub index_size : ℕ
    pub update_store_size : ℕ
    pub handler : Handler
    pub index_controller : Controller (world (with_handler crates handler))
    pub api_keys : ApiKeys
    pub options : Opt CompressionType

  unfoldable pub new_data : Faults → Opt CompressionType → Exec Disk String Data
  unfolding new_controller new_api_keys
  new_data fault options = do
    attempt (fault create_data_dir)
    modify (make options.db_path)
    started ← new_controller fault options.db_path
    pure (record {
      index_size = options.max_mdb_size;
      update_store_size = options.max_udb_size;
      handler = started.0;
      index_controller = started.1;
      api_keys = new_api_keys host.digest options.master_key;
      options = options;
    })

  unfoldable pub http_payload_size_limit : Data → ℕ
  http_payload_size_limit data_ = data_.options.http_payload_size_limit

  module _ (rustls : Rustls) (open_file : Opening → String → Option rustls.File) where
    -- The server that runs: its application, and how its address is bound.
    pub record HttpServer : Type 0 where
      pub served : Data
      pub frontend : Bool
      pub address : String
      pub tls : Option rustls.ServerConfig

    unfoldable pub run_http :
        Faults → Data → Opt CompressionType → Bool → Exec Disk String HttpServer
    run_http fault data_ opt enable_frontend = do
      found ← lift (get_ssl_config rustls open_file opt)
      elim found [ some config ↦ attempt (fault bind_rustls) | none ↦ attempt (fault bind) ]
      pure (record {
        served = data_;
        frontend = enable_frontend;
        address = opt.http_addr;
        tls = found;
      })

    -- The `match` on the environment.
    unfoldable pub check_env : Opt CompressionType → Outcome String (Unit {0})
    check_env opt =
        if str_eq opt.env "production"
        then (elim opt.master_key [
          | none ↦ err "In production mode, the environment variable MEILI_MASTER_KEY is mandatory"
          | some key ↦ ok tt
        ])
        else if str_eq opt.env "development"
        then ok tt
        else panicked "internal error: entered unreachable code"

    -- `main`, as far as the server that it runs; what it prints is left out.
    unfoldable pub main : Faults → Opt CompressionType → Exec Disk String HttpServer
    unfolding check_env new_data run_http
    main fault opt = do
      lift (check_env opt)
      data_ ← new_data fault opt
      let enable_frontend = not (str_eq opt.env "production")
      run_http fault data_ opt enable_frontend
