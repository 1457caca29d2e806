-- ===== src/Server/Restart.antt =====
-- What a restart of the server keeps: its stores are on the disk, and `IndexController::new` of
-- meilisearch-http/src/index_controller/mod.rs starts the actors on them.
use transplant.Base.{ℕ, ◌≡◌, refl, ap, Bool, inl, inr, true, false, none, arith, String}
use transplant.Base.Outcome.{ok, Outcome-cases}
use transplant.Heed.Keys.{Text}
use transplant.Updates.{Uuid}
use transplant.UpdateStore as Queue
use transplant.UpdateStore.Reading.{meta-env}
use transplant.UuidResolver as Names
use transplant.UpdateActor as Updating
use transplant.UpdateActor.{get_store, handle_get_update}
use transplant.IndexActor as Indexing
use transplant.IndexActor.{handle_get_meta, get, open_index}
use transplant.IndexController.{Controller, Stores, get_uuid}
use transplant.IndexController.Queries.{get_index, update_status}
use transplant.IndexController.Laws.{quiet}
use transplant.Routes.{Crates, world}
use transplant.Server.{Host, Disk, with_handler, new_controller, no_faults}
use transplant.Server.Launch.{default_handler, started_on, new_controller_starts}

-- Reading an index that is not in the map loads it from its directory, with the same answer.
get_meta-unloaded :
    (engine : Indexing.Engine) (s : Indexing.State engine) (id : Uuid)
    → (s.loaded id ≡ true → s.dir_exists id ≡ true)
    → (handle_get_meta engine Indexing.no_faults id (record s { loaded = λ u. false })).0
      ≡ (handle_get_meta engine Indexing.no_faults id s).0
unfolding handle_get_meta get open_index
get_meta-unloaded engine s id h = ground (arith, h)

module _ (crates : Crates) where
  abbrev unloaded : Stores (world crates) → Stores (world crates)
  unloaded st = record st {
    loaded = λ u. false;
    store = λ u. Updating.opened crates.queue crates.json crates.path_of (st.store u).env;
  }

  get_update-unloaded :
      (st : Stores (world crates)) (id : Uuid) (n : ℕ)
      → (st.loaded id ≡ true → (st.dir_exists id ≡ true) × ((st.store id).processing ≡ none))
      → (handle_get_update crates.queue crates.json crates.path_of Updating.no_faults
          Queue.no_faults id n
          (unloaded st)).0
        ≡ (handle_get_update crates.queue crates.json crates.path_of Updating.no_faults
            Queue.no_faults id n st).0
  unfolding handle_get_update get_store
  get_update-unloaded st id n h = ground (
    arith,
    h,
    meta-env crates.queue n (record ((unloaded st).store id) { files = st.files })
        (record (st.store id) { files = st.files }) refl refl,
  )

module _ (crates : Crates)
    (host : Host crates.builders.CompressionType crates.builders.ThreadPool) where
  -- The crates of a server that was launched.
  abbrev pub launched : Crates
  launched = with_handler crates (default_handler crates host)

  -- What a server leaves on the disk when it stops at any time.
  abbrev pub disk_of : (String → Bool) → Controller (world launched) → Disk crates host
  disk_of made c = record {
    made = made;
    names = c.resolver.state;
    update_dir = c.updates.state.dir_exists;
    tables = λ u. (c.updates.state.store u).env;
    files = c.updates.state.files;
    index_dir = c.indexes.state.dir_exists;
    index = c.indexes.state.index;
  }

  abbrev pub restarted : Controller (world launched) → Controller (world launched)
  restarted c = (started_on crates host (disk_of (λ p. false) c)).1

  -- Every index and every store that is loaded has its directory.
  pub record IsStored (c : Controller (world launched)) : Type 0 where
    pub resolver_runs : c.resolver.running ≡ true
    pub updates_runs : c.updates.running ≡ true
    pub indexes_runs : c.indexes.running ≡ true
    pub index_stored :
        (u : Uuid) → c.indexes.state.loaded u ≡ true → c.indexes.state.dir_exists u ≡ true
    pub store_stored :
        (u : Uuid) → c.updates.state.loaded u ≡ true → c.updates.state.dir_exists u ≡ true

  restarted-get_index :
      (c : Controller (world launched)) (name : Text)
      → IsStored c
      → (get_index (world launched) quiet name (restarted c)).0
        ≡ (get_index (world launched) quiet name c).0
  unfolding get_index get_uuid
  restarted-get_index c name h =
      elim (Outcome-cases
        (Names.handle_get crates.names crates.uuids Names.no_faults name c.resolver.state).0) [
          | inl (id, e) ↦ ground (
            arith,
            e,
            h.resolver_runs,
            h.indexes_runs,
            get_meta-unloaded (world launched).engine c.indexes.state id (h.index_stored id),
          )
          | inr (inl (x, e)) ↦ ground (arith, e, h.resolver_runs)
          | inr (inr (x, e)) ↦ ground (arith, e, h.resolver_runs)
        ]

  restarted-update_status :
      (c : Controller (world launched)) (name : Text) (n : ℕ)
      → IsStored c
      → ((u : Uuid) → c.updates.state.loaded u ≡ true → (c.updates.state.store u).processing ≡ none)
      → (update_status (world launched) quiet name n (restarted c)).0
        ≡ (update_status (world launched) quiet name n c).0
  unfolding update_status get_uuid
  restarted-update_status c name n h idle =
      elim (Outcome-cases
        (Names.handle_get crates.names crates.uuids Names.no_faults name c.resolver.state).0) [
          | inl (id, e) ↦ ground (
            arith,
            e,
            h.resolver_runs,
            h.updates_runs,
            get_update-unloaded launched c.updates.state id n
                (λ l. (h.store_stored id l, idle id l)),
          )
          | inr (inl (x, e)) ↦ ground (arith, e, h.resolver_runs)
          | inr (inr (x, e)) ↦ ground (arith, e, h.resolver_runs)
        ]

  -- A server whose actors run, whose loaded indexes and stores have their directories, and where nothing is
  -- being processed, can be stopped and started again on what it left on the disk, whatever directories
  -- are missing: when no call fails it starts, and it answers as before what the index under
  -- any name is and what the status of any update is.
  pub restart-answers :
      (made : String → Bool) (path : String) (c : Controller (world launched))
      → IsStored c
      → ((u : Uuid) → c.updates.state.loaded u ≡ true → (c.updates.state.store u).processing ≡ none)
      → ((new_controller crates host no_faults path (disk_of made c)).0
          ≡ ok (default_handler crates host, restarted c))
        × ((name : Text)
            → (get_index (world launched) quiet name (restarted c)).0
              ≡ (get_index (world launched) quiet name c).0)
        × ((name : Text) (n : ℕ)
            → (update_status (world launched) quiet name n (restarted c)).0
              ≡ (update_status (world launched) quiet name n c).0)
  restart-answers made path c h idle = (
    ap (λ r. r.0) (new_controller_starts crates host path (disk_of made c)),
    λ name. restarted-get_index c name h,
    λ name n. restarted-update_status c name n h idle,
  )
