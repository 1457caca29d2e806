-- ===== src/IndexController/Queries.antt =====
-- The controller's methods that ask an index or its queue,
-- meilisearch-http/src/index_controller/mod.rs.
use transplant.Base.{ℕ, Option, none, some, List, [], ◌∷◌, String}
use transplant.Base.Outcome.{err}
use transplant.Base.Exec.{Exec, ◌>>=◌, ◌>>◌, pure, lift}
use transplant.Heed.Keys.{Text}
use transplant.Updates.{Uuid}
use transplant.UuidResolver as Names
use transplant.UpdateActor.Messages as Updates
use transplant.IndexActor as Indexing
use transplant.IndexActor.{IndexMeta}
use transplant.IndexActor.Messages as Indexes
use transplant.IndexController.{
  Error, message, IndexMetadata, IndexSettings, World, Call, Controller, Status, in_resolver,
  in_updates, in_indexes, get_uuid,
}

module _ (world : World) where
  open world use {names, queue, uuids, json, path_of, engine}

  unfoldable pub update_status : Call → Text → ℕ → Exec (Controller world) Error (Status world)
  update_status c uid id = do
    index ← get_uuid world c uid
    in_updates world (Updates.ask_update_status queue json path_of c.updating c.storing index id)

  unfoldable pub all_update_status :
      Call → Text → Exec (Controller world) Error (List (Status world))
  all_update_status c uid = do
    index ← get_uuid world c uid
    in_updates world (Updates.ask_all_updates_status queue json path_of c.updating c.storing index)

  -- The loop of `list_indexes`; `fault` says which calls fail for each index.
  unfoldable pub collect_metas :
      (Uuid → Indexing.Faults)
      → List (Text × Uuid)
      → Exec (Controller world) Error (List IndexMetadata)
  collect_metas fault [] = pure []
  collect_metas fault ((uid, id) ∷ l) = do
    meta ← in_indexes world (Indexes.ask_index_meta engine (fault id) id)
    rest ← collect_metas fault l
    pure (record { uid = uid; name = uid; meta = meta } ∷ rest)

  unfoldable pub list_indexes :
      Call → (Uuid → Indexing.Faults) → Exec (Controller world) Error (List IndexMetadata)
  list_indexes c fault = do
    uuids ← in_resolver world (Names.ask_list names uuids c.resolving)
    collect_metas fault uuids

  unfoldable pub settings : Call → Text → Exec (Controller world) Error engine.Settings
  settings c uid = do
    index ← get_uuid world c uid
    in_indexes world (Indexes.ask_settings engine c.indexing index)

  unfoldable pub documents :
      Call
      → Text
      → ℕ
      → ℕ
      → Option (List String)
      → Exec (Controller world) Error (List engine.Document)
  documents c uid offset limit attributes_to_retrieve = do
    index ← get_uuid world c uid
    in_indexes world
        (Indexes.ask_documents engine c.indexing index offset limit attributes_to_retrieve)

  unfoldable pub document :
      Call → Text → String → Option (List String) → Exec (Controller world) Error engine.Document
  document c uid doc_id attributes_to_retrieve = do
    index ← get_uuid world c uid
    in_indexes world (Indexes.ask_document engine c.indexing index doc_id attributes_to_retrieve)

  abbrev refuse_new_uid : Option Text → Exec (Controller world) Error (Unit {0})
  refuse_new_uid none = pure tt
  refuse_new_uid (some uid) = lift (err (message "Can't change the index uid."))

  unfoldable pub update_index :
      Call → Text → IndexSettings → Exec (Controller world) Error IndexMetadata
  update_index c uid index_settings = do
    refuse_new_uid index_settings.uid
    index ← get_uuid world c uid
    meta ←
        in_indexes world
          (Indexes.ask_update_index engine c.indexing index index_settings.primary_key)
    pure (record { uid = uid; name = uid; meta = meta })

  unfoldable pub search :
      Call → Text → engine.Query → Exec (Controller world) Error engine.SearchResult
  search c uid query = do
    index ← get_uuid world c uid
    in_indexes world (Indexes.ask_search engine c.indexing index query)

  unfoldable pub get_index : Call → Text → Exec (Controller world) Error IndexMetadata
  get_index c uid = do
    index ← get_uuid world c uid
    meta ← in_indexes world (Indexes.ask_index_meta engine c.indexing index)
    pure (record { uid = uid; name = uid; meta = meta })
