-- ===== src/Lib.antt =====
-- A model of the server's update pipeline and of what guards it. A request passes the middleware,
-- the name of its index is resolved to a uuid, and an update is written to the queue of that index,
-- whose loop hands it to the actor of the indexes. A search is resolved in the same way and run on
-- the index.
--
-- The parts, and the files that model them:
-- - meilisearch-http/src/index_controller/updates.rs: Updates. The records of an update's stages.
-- - meilisearch-http/src/index_controller/update_store.rs: UpdateStore (the tables,
--   `new_update_id`, `register_update`), UpdateStore/Process (`process_pending_update` in its two
--   halves `take_first` and `finish`, and the loop of `open` as `drain`), UpdateStore/Abort
--   (`abort_update`, `abort_pendings`) and UpdateStore/Read (`list`, `meta`). UpdateStore/Invariant
--   has the invariant, UpdateStore/System the interleavings of the calls, UpdateStore/Spec the queue as
--   its clients see it, and UpdateStore/Stages and UpdateStore/Refinement how the tables implement it.
-- - meilisearch-http/src/index_controller/uuid_resolver.rs: UuidResolver.
-- - meilisearch-http/src/index_controller/update_actor.rs: UpdateActor, whose stores are those of
--   UpdateStore, UpdateActor/Messages (`run` and the handle), and UpdateActor/Files (the update files).
-- - meilisearch-http/src/index_controller/index_actor.rs and update_handler.rs: IndexActor,
--   IndexActor/Messages (`handle_message` and the handle) and IndexActor/Tasks (the calls of the store that
--   come between each other under `run`).
-- - meilisearch-http/src/index_controller/mod.rs: IndexController and IndexController/Queries, over
--   the states of the three actors side by side. IndexController/Documents, Laws and Deletion follow
--   an index and its updates through all of them, and IndexController/Processing lets the loop of a store
--   ask the actor of the indexes; IndexController/Settled follows an update to its result.
-- - meilisearch-http/src/index: Index (mod.rs), Index/Search and Index/Highlight (search.rs),
--   Index/Updates (updates.rs) and Index/Handler (the builder of update_handler.rs). Index/Engine makes them
--   the engine that IndexActor takes.
-- - meilisearch-http/src/routes: Routes/Search, Routes/Query (the parameters of a URL),
--   Routes/Documents, Routes/Indexes and Routes/Settings. They call the methods of
--   meilisearch-http/src/data, Data, over the controller with that engine.
-- - meilisearch-http/src/helpers/authentication.rs and the keys of meilisearch-http/src/data/mod.rs:
--   Authentication.
-- - meilisearch-error/src/lib.rs: ErrorCode. meilisearch-http/src/error.rs: HttpError, with
--   HttpError/Body.
-- - meilisearch-http/src/option.rs: Options, and Options/Tls (`get_ssl_config`).
-- - meilisearch-http/src/main.rs, `Data::new` and the `new` of the controller and of the actors: Server;
--   Server/Launch is what they start, and Server/Restart starts it again. lib.rs and the `services` of the
--   routes: Server/Routing, with Server/Apart for which handler a request reaches, and Server/Access
--   and Server/Production for who reaches it;
--   Server/Constant has the handlers that need no data.
--
-- Code that is not of this repository is a parameter: the `heed` database is the record `Heed`,
-- with its documented behaviour as laws and a sorted listing (Heed/Sorted) that meets them; the
-- engine `milli` is the records `Milli`, `Engine` (of Index/Search), `Updating`, `Metadata` and
-- `Builders`, the tokenizer the record `Analyzer`; IndexActor and IndexController are stated over any
-- engine, the record `Engine` of IndexActor. The JSON crates, the conversions of the `uuid` crate and the
-- SHA-256 digest are records and arguments; `rustls` is the record `Rustls`, and the router of `actix-web` is
-- the record `Router`, of which nothing is assumed but that it finds a service that takes the request.
-- The clock, `Uuid::new_v4()` and the failure of each call are arguments.
--
-- State is passed explicitly (Base/Exec): a function returns an outcome (`ok`, `err`, or
-- `panicked`) beside the state, so that what was written before an early return stays written. A
-- write transaction is a copy of the tables that `commit` puts back. A handle's call of its actor is
-- `ask` of Base/Actor; a blocking task that can panic is `spawn_blocking` of Base/Exec, which makes of the
-- panic the error of the join. Ids are numbers with the 64-bit wrap written out. The loop takes as fuel
-- the number of its rounds: one round more than there are pending updates is enough. What is left
-- tells a loop that waits from one that goes on when the fuel is used up and from one that a panic has ended.
--
-- Not modelled: the snapshots and dumps and the analytics, which are not part of the build; the
-- compression, which nothing calls; the routes that no `mod` line declares and the build script; the
-- parsing of the command line, and what is printed and logged; and the middleware of the framework. Outside IndexActor/Tasks, two tasks that call one actor at a time are in
-- the order in which their messages are handled.
pub mod Base
pub mod Heed
pub mod Updates
pub mod UpdateStore
pub mod UpdateActor
pub mod IndexActor
pub mod UuidResolver
pub mod IndexController
pub mod Index
pub mod Data
pub mod Routes
pub mod Options
pub mod Server
pub mod ErrorCode
pub mod HttpError
pub mod Authentication
