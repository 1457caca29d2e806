-- ===== src/Server/Launch.antt =====
-- What a server that has been launched is, by meilisearch-http/src/main.rs: its keys, its TLS and its
-- update handler.
use transplant.Base.{
  ◌≡◌, ◌⊎◌, inl, inr, refl, true, false, not, Bool, Option, none, some, arith, String, str_eq,
  eq_iff, Option-cases, Bool-cases,
}
use transplant.Base.Outcome.{ok, Outcome-cases}
use transplant.Authentication.{new_api_keys}
use transplant.Index.Handler.{UpdateHandler}
use transplant.Options.{Opt, default_indexer_opts}
use transplant.Options.Tls.{Rustls, Opening, get_ssl_config}
use transplant.Routes.{Crates, world}
use transplant.UpdateActor as Updating
use transplant.IndexController.{Controller}
use transplant.Server.{
  new_uuid_store, new_index_handle, new_update_handle, Faults, no_faults, with_handler, Host, Disk,
  Data, HttpServer, make, new_uuid_resolver, new_update_handler, new_index_actor, new_update_actor,
  new_controller, new_data, run_http, check_env, main, create_data_dir, create_uuids_dir,
  open_uuids, create_database, build_pool, create_files_dir,
}

module _ (crates : Crates)
    (host : Host crates.builders.CompressionType crates.builders.ThreadPool) where
  open crates.builders use {CompressionType, ThreadPool}

  -- The update handler of the default options: one thread for each core, and a gibibyte of memory.
  abbrev pub default_handler : UpdateHandler CompressionType ThreadPool
  default_handler = record {
    max_nb_chunks = none;
    chunk_compression_level = none;
    thread_pool = host.build 0;
    log_frequency = 100000;
    max_memory = 1073741824;
    linked_hash_map_size = 500;
    chunk_compression_type = host.uncompressed;
    chunk_fusing_shrink_size = 4294967296;
  }

  -- The controller that is started on what is on the disk: its three actors run, and no index and
  -- no store of updates is loaded.
  abbrev pub started_on :
      Disk crates host
      → (h : UpdateHandler CompressionType ThreadPool) × Controller (world (with_handler crates h))
  started_on d = (
    default_handler,
    record {
      resolver = record { running = true; state = d.names };
      updates = record {
        running = true;
        state = record {
          loaded = λ u. false;
          dir_exists = d.update_dir;
          store = λ u. Updating.opened crates.queue crates.json crates.path_of (d.tables u);
          files = d.files;
        };
      };
      indexes = record {
        running = true;
        state = record { loaded = λ u. false; dir_exists = d.index_dir; index = d.index };
      };
    },
  )

  abbrev pub made_dirs : String → Disk crates host → Disk crates host
  made_dirs path d =
      make crates host (host.join (host.join path "updates") "update_files")
        (make crates host (host.join path "index_uuids") d)

  abbrev files_dir : String → String
  files_dir path = host.join (host.join path "updates") "update_files"

  is_made : (path : String) → str_eq (files_dir path) (files_dir path) ≡ true
  is_made path = (eq_iff (files_dir path) (files_dir path)).1 refl

  -- A controller that is started is that of what is on the disk, whatever the calls answer.
  pub new_controller-ok :
      (fault : Faults) (path : String) (d : Disk crates host)
      {h : (h : UpdateHandler CompressionType ThreadPool) × Controller
          (world (with_handler crates h))}
      → (new_controller crates host fault path d).0 ≡ ok h
      → new_controller crates host fault path d ≡ (ok (started_on d), made_dirs path d)
  unfolding new_controller new_uuid_resolver new_uuid_store new_index_handle new_index_actor
      new_update_handler new_update_handle new_update_actor default_indexer_opts
  new_controller-ok fault path d h =
      let a : fault create_uuids_dir ≡ none = ground (arith, h) in
      let b : fault open_uuids ≡ none = ground (arith, h) in
      let c : fault create_database ≡ none = ground (arith, h) in
      let p : fault build_pool ≡ none = ground (arith, h) in
      let f : fault create_files_dir ≡ none = ground (arith, h) in
      rw (a, b, c, p, f, is_made path) refl

  -- With no call failing, the controller starts.
  pub new_controller_starts :
      (path : String) (d : Disk crates host)
      → new_controller crates host no_faults path d ≡ (ok (started_on d), made_dirs path d)
  unfolding new_controller new_uuid_resolver new_uuid_store new_index_handle new_index_actor
      new_update_handler new_update_handle new_update_actor default_indexer_opts
  new_controller_starts path d = rw (is_made path) refl

  abbrev pub data_on : Opt CompressionType → Disk crates host → Data crates host
  data_on opt d = record {
    index_size = opt.max_mdb_size;
    update_store_size = opt.max_udb_size;
    handler = default_handler;
    index_controller = (started_on d).1;
    api_keys = new_api_keys host.digest opt.master_key;
    options = opt;
  }

  abbrev pub launched_disk : Opt CompressionType → Disk crates host → Disk crates host
  launched_disk opt d = made_dirs opt.db_path (make crates host opt.db_path d)

  pub new_data-ok :
      (fault : Faults) (opt : Opt CompressionType) (d : Disk crates host) {x : Data crates host}
      → (new_data crates host fault opt d).0 ≡ ok x
      → new_data crates host fault opt d ≡ (ok (data_on opt d), launched_disk opt d)
  unfolding new_data
  new_data-ok fault opt d h =
      let p : fault create_data_dir ≡ none = ground (arith, h) in
      let d' = make crates host opt.db_path d in
      elim (Outcome-cases (new_controller crates host fault opt.db_path d').0) [
        | inl (c, e) ↦ rw (p, new_controller-ok fault opt.db_path d' e) refl
        | inr (inl (x, e)) ↦ absurd (ground (arith, h, e, p))
        | inr (inr (x, e)) ↦ absurd (ground (arith, h, e, p))
      ]

  module _ (rustls : Rustls) (open_file : Opening → String → Option rustls.File) where
    check_env-ok :
        (opt : Opt CompressionType)
        → check_env crates host rustls open_file opt ≡ ok tt
        → ((opt.env ≡ "production") × ((k : String) × (opt.master_key ≡ some k)))
          ⊎ (opt.env ≡ "development")
    unfolding check_env
    check_env-ok opt h = elim (Bool-cases (str_eq opt.env "production")) [
      | inl p ↦ elim (Option-cases opt.master_key) [
        | inl e ↦ absurd (ground (arith, h, p, e))
        | inr (k, e) ↦ inl ((eq_iff opt.env "production").0 p, (k, e))
      ]
      | inr z ↦ elim (Bool-cases (str_eq opt.env "development")) [
        | inl y ↦ inr ((eq_iff opt.env "development").0 y)
        | inr w ↦ absurd (ground (arith, h, z, w))
      ]
    ]

    run_http-ok :
        (fault : Faults) (served : Data crates host) (opt : Opt CompressionType) (frontend : Bool)
        (d : Disk crates host) {x : HttpServer crates host rustls open_file}
        → (run_http crates host rustls open_file fault served opt frontend d).0 ≡ ok x
        → (get_ssl_config rustls open_file opt ≡ ok x.tls)
          × (x.served ≡ served)
          × (x.frontend ≡ frontend)
          × ((run_http crates host rustls open_file fault served opt frontend d).1 ≡ d)
    unfolding run_http
    run_http-ok fault served opt frontend d h =
        elim (Outcome-cases (get_ssl_config rustls open_file opt)) [
          | inl (none, e) ↦ (
            ground (arith, h, e),
            ground (arith, h, e),
            ground (arith, h, e),
            ground (arith, h, e),
          )
          | inl (some c, e) ↦ (
            ground (arith, h, e),
            ground (arith, h, e),
            ground (arith, h, e),
            ground (arith, h, e),
          )
          | inr (inl (x, e)) ↦ absurd (ground (arith, h, e))
          | inr (inr (x, e)) ↦ absurd (ground (arith, h, e))
        ]

    abbrev IsAllowed : Opt CompressionType → Bool → Type 0
    IsAllowed opt frontend =
        ((opt.env ≡ "production") × ((k : String) × (opt.master_key ≡ some k)) × (frontend ≡ false))
        ⊎ ((opt.env ≡ "development") × (frontend ≡ true))

    frontend-env :
        (opt : Opt CompressionType) (frontend : Bool)
        → ((opt.env ≡ "production") × ((k : String) × (opt.master_key ≡ some k)))
          ⊎ (opt.env ≡ "development")
        → frontend ≡ not (str_eq opt.env "production")
        → IsAllowed opt frontend
    frontend-env opt frontend (inl (p, k)) e = inl (p, k, rw (e, p) refl)
    frontend-env opt frontend (inr p) e = inr (p, rw (e, p) refl)

    -- A server that is launched is in production with a master key, and has no page for browsers, or in
    -- development, and has it. It speaks TLS exactly with the configuration that the options give. It has
    -- the controller of what was on the disk, and the keys made of the master key.
    -- Its update handler is that of the default options, whatever the options for indexing are.
    pub main-ok :
        (fault : Faults) (opt : Opt CompressionType) (d : Disk crates host)
        {x : HttpServer crates host rustls open_file}
        → (main crates host rustls open_file fault opt d).0 ≡ ok x
        → IsAllowed opt x.frontend
          × (get_ssl_config rustls open_file opt ≡ ok x.tls)
          × (x.served ≡ data_on opt d)
          × ((main crates host rustls open_file fault opt d).1 ≡ launched_disk opt d)
    unfolding main
    main-ok fault opt d {x} h = elim (Outcome-cases (check_env crates host rustls open_file opt)) [
      | inr (inl (e, c)) ↦ absurd (ground (arith, h, c))
      | inr (inr (e, c)) ↦ absurd (ground (arith, h, c))
      | inl (u, c) ↦ elim (Outcome-cases (new_data crates host fault opt d).0) [
        | inr (inl (e, q)) ↦ absurd (ground (arith, h, c, q))
        | inr (inr (e, q)) ↦ absurd (ground (arith, h, c, q))
        | inl (v, q) ↦
            let started = new_data-ok fault opt d q in
            let ran =
              run_http-ok fault (data_on opt d) opt (not (str_eq opt.env "production"))
                (launched_disk opt d) (rw (c, started) at h) in
            (
              frontend-env opt x.frontend (check_env-ok opt c) ran.2,
              ran.0,
              ran.1,
              rw (c, started) ran.3,
            )
      ]
    ]
