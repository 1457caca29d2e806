-- ===== src/IndexController.antt =====
-- The controller that composes the three actors, meilisearch-http/src/index_controller/mod.rs. The
-- actors' states stand side by side; a handle's call is `within` the state of its actor.

pub mod Queries
pub mod Laws
pub mod Deletion
pub mod Documents
pub mod Processing
pub mod Settled
mod Tests
mod LoopTests
use transplant.Base.{ℕ, Bool, true, false, Option, none, some, List, [], ◌∷◌, String}
use transplant.Base.Outcome.{Outcome, ok, err, panicked, map_err, ok_or}
use transplant.Base.Exec.{Exec, ◌>>=◌, ◌>>◌, pure, lift}
use transplant.Base.Actor.{Actor, within}
use transplant.Heed.{Heed}
use transplant.Heed.Keys.{Text, text_key, nat_key}
use transplant.Updates.{Uuid, DateTime, UpdateStatus}
use transplant.UpdateStore as Queue
use transplant.UpdateStore.{Content}
use transplant.UuidResolver as Names
use transplant.UuidResolver.{UuidBytes, UuidError, unexisting_index}
use transplant.UpdateActor as Updating
use transplant.UpdateActor.{Json, UpdateError, Chunk, bytes}
use transplant.UpdateActor.Messages as Updates
use transplant.IndexActor as Indexing
use transplant.IndexActor.{
  Engine, IndexError, IndexMeta, Meta, documents_addition, clear_documents, delete_documents,
  settings_update,
}
use transplant.IndexActor.Messages as Indexes

-- What `anyhow::Error` can hold here.
pub data Error : Type 0 where
  of_uuid : UuidError → Error
  of_update : UpdateError → Error
  of_index : IndexError → Error
  message : String → Error

pub record IndexMetadata : Type 0 where
  pub uid : Text
  pub name : Text
  pub meta : IndexMeta

pub record IndexSettings : Type 0 where
  pub uid : Option Text
  pub primary_key : Option String

-- The code that is a parameter: the two databases, the crates, and the engine of the indexes.
pub record World : Type 1 where
  pub names : Heed text_key
  pub queue : Heed nat_key
  pub uuids : UuidBytes
  pub json : Json
  pub path_of : Uuid → String
  pub engine : Engine
  -- `serde_json::to_vec` of the ids of the documents to delete.
  pub ids_to_vec : List String → Content

-- Which calls fail, for each call of an actor that a method makes, with the values of
-- `Uuid::new_v4()` and of the clock.
pub record Call : Type 0 where
  pub resolving : Names.Faults
  pub inserting : Names.Faults
  pub updating : Updating.Faults
  pub storing : Queue.Faults
  pub indexing : Indexing.Faults
  pub new_v4 : Uuid
  pub file_v4 : Uuid
  pub now : DateTime

module _ (world : World) where
  open world use {names, queue, uuids, json, path_of, engine}

  abbrev pub Status : Type 0
  Status = UpdateStatus (Meta engine) engine.UpdateResult String

  abbrev pub Stores : Type 0
  Stores = Updating.State queue (Meta engine) engine.UpdateResult String

  -- `IndexController`: its three handles, with what stands behind them.
  pub record Controller : Type 0 where
    pub resolver : Actor (Names.Store names uuids)
    pub updates : Actor Stores
    pub indexes : Actor (Indexing.State engine)

  abbrev pub in_resolver :
      {A : Type 0} → Exec (Actor (Names.Store names uuids)) UuidError A → Exec Controller Error A
  in_resolver = within (λ s. s.resolver) (λ t s. record s { resolver = t }) of_uuid

  abbrev pub in_updates : {A : Type 0} → Exec (Actor Stores) UpdateError A → Exec Controller Error A
  in_updates = within (λ s. s.updates) (λ t s. record s { updates = t }) of_update

  abbrev pub in_indexes :
      {A : Type 0} → Exec (Actor (Indexing.State engine)) IndexError A → Exec Controller Error A
  in_indexes = within (λ s. s.indexes) (λ t s. record s { indexes = t }) of_index

  -- `self.uuid_resolver.get(uid).await?`.
  unfoldable pub get_uuid : Call → Text → Exec Controller Error Uuid
  get_uuid c uid = in_resolver (Names.ask_get names uuids c.resolving uid)

  unfoldable pub queue_update :
      Call → Meta engine → List Chunk → Uuid → Exec Controller Error Status
  queue_update c meta payload id =
      in_updates
        (Updates.ask_update queue json path_of c.updating c.storing c.file_v4 c.now meta payload id)

  unfoldable pub insert_name : Call → Text → Uuid → Exec Controller Error (Unit {0})
  insert_name c name id = in_resolver (Names.ask_insert names uuids c.inserting name id)

  -- The `match` on what the resolver answers: `missing` is for a name that does not exist.
  abbrev pub resolved :
      {A : Type 0}
      → (Uuid → Exec Controller Error A)
      → (Text → Exec Controller Error A)
      → Outcome UuidError Uuid
      → Exec Controller Error A
  resolved found missing (ok id) = found id
  resolved found missing (err (unexisting_index name)) = missing name
  resolved found missing (err e) = lift (err (of_uuid e))
  resolved found missing (panicked m) = lift (panicked m)

  abbrev pub match_uuid :
      {A : Type 0}
      → Call
      → Text
      → (Uuid → Exec Controller Error A)
      → (Text → Exec Controller Error A)
      → Exec Controller Error A
  match_uuid c uid found missing s =
      let (r, t) = Names.ask_get names uuids c.resolving uid s.resolver in
      resolved found missing r (record s { resolver = t })

  -- A new uuid, whose update is registered before the name is inserted.
  unfoldable pub register_new :
      Call → Meta engine → List Chunk → Text → Exec Controller Error Status
  register_new c meta payload name = do
    status ← queue_update c meta payload c.new_v4
    insert_name c name c.new_v4
    pure status

  -- `add_documents`; the task that it spawns sends the chunks of the body to the channel.
  unfoldable pub add_documents :
      Call
      → Text
      → engine.Method
      → engine.Format
      → List Chunk
      → Option String
      → Exec Controller Error Status
  add_documents c uid method format payload primary_key =
      let meta : Meta engine = documents_addition method format primary_key in
      match_uuid c uid (queue_update c meta payload) (register_new c meta payload)

  unfoldable pub clear_documents_of : Call → Text → Exec Controller Error Status
  clear_documents_of c uid = do id ← get_uuid c uid; queue_update c clear_documents [] id

  unfoldable pub delete_documents_of : Call → Text → List String → Exec Controller Error Status
  delete_documents_of c uid document_ids = do
    id ← get_uuid c uid
    queue_update c delete_documents (bytes (world.ids_to_vec document_ids) ∷ []) id

  abbrev pub refuse_missing : Text → Exec Controller Error Status
  refuse_missing name = lift (err (of_uuid (unexisting_index name)))

  unfoldable pub update_settings :
      Call → Text → engine.Settings → Bool → Exec Controller Error Status
  update_settings c uid settings create =
      let meta : Meta engine = settings_update settings in
      match_uuid c uid (queue_update c meta [])
        (λ name. elim create [ true ↦ register_new c meta [] name | false ↦ refuse_missing name ])

  unfoldable pub create_index : Call → IndexSettings → Exec Controller Error IndexMetadata
  create_index c settings = do
    uid ← lift (ok_or (message "Can't create an index without a uid.") settings.uid)
    id ← in_resolver (Names.ask_create names uuids c.resolving c.new_v4 uid)
    meta ← in_indexes (Indexes.ask_create_index engine c.indexing id settings.primary_key)
    in_updates (Updates.ask_create queue json path_of c.updating id)
    pure (record { uid = uid; name = uid; meta = meta })

  unfoldable pub delete_index : Call → Text → Exec Controller Error (Unit {0})
  delete_index c uid = do
    id ← in_resolver (Names.ask_delete names uuids c.resolving uid)
    in_updates (Updates.ask_delete queue json path_of c.updating id)
    in_indexes (Indexes.ask_delete_index engine c.indexing id)
