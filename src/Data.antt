-- ===== src/Data.antt =====
-- The methods of `Data` that the routes call, meilisearch-http/src/data, over the controller.
use transplant.Base.{ℕ, Bool, Option, some, List, String}
use transplant.Base.Exec.{Exec, ◌>>=◌, ◌>>◌, pure}
use transplant.Heed.Keys.{Text}
use transplant.Updates.{Uuid}
use transplant.UpdateActor.{Chunk}
use transplant.IndexActor as Indexing
use transplant.IndexController as Controlling
use transplant.IndexController.{World, Call, Controller, Error, Status, IndexMetadata}
use transplant.IndexController.Queries as Asking

module _ (world : World) where
  open world use {engine}

  unfoldable pub search :
      Call → Text → engine.Query → Exec (Controller world) Error engine.SearchResult
  search c index search_query = Asking.search world c index search_query

  unfoldable pub retrieve_documents :
      Call
      → Text
      → ℕ
      → ℕ
      → Option (List String)
      → Exec (Controller world) Error (List engine.Document)
  retrieve_documents c index offset limit attributes_to_retrieve =
      Asking.documents world c index offset limit attributes_to_retrieve

  unfoldable pub retrieve_document :
      Call → Text → String → Option (List String) → Exec (Controller world) Error engine.Document
  retrieve_document c index document_id attributes_to_retrieve =
      Asking.document world c index document_id attributes_to_retrieve

  unfoldable pub add_documents :
      Call
      → Text
      → engine.Method
      → engine.Format
      → List Chunk
      → Option String
      → Exec (Controller world) Error (Status world)
  add_documents c index method format stream primary_key = do
    update_status ← Controlling.add_documents world c index method format stream primary_key
    pure update_status

  unfoldable pub update_settings :
      Call → Text → engine.Settings → Bool → Exec (Controller world) Error (Status world)
  update_settings c index settings create = do
    update ← Controlling.update_settings world c index settings create
    pure update

  unfoldable pub clear_documents : Call → Text → Exec (Controller world) Error (Status world)
  clear_documents c index = do update ← Controlling.clear_documents_of world c index; pure update

  unfoldable pub delete_documents :
      Call → Text → List String → Exec (Controller world) Error (Status world)
  delete_documents c index document_ids = do
    update ← Controlling.delete_documents_of world c index document_ids
    pure update

  unfoldable pub delete_index : Call → Text → Exec (Controller world) Error (Unit {0})
  delete_index c index = do Controlling.delete_index world c index; pure tt

  unfoldable pub get_update_status : Call → Text → ℕ → Exec (Controller world) Error (Status world)
  get_update_status c index uid = Asking.update_status world c index uid

  unfoldable pub get_updates_status :
      Call → Text → Exec (Controller world) Error (List (Status world))
  get_updates_status c index = Asking.all_update_status world c index

  unfoldable pub update_index :
      Call → Text → Option String → Option Text → Exec (Controller world) Error IndexMetadata
  update_index c uid primary_key new_uid =
      Asking.update_index world c uid (record { uid = new_uid; primary_key = primary_key })

  unfoldable pub settings : Call → Text → Exec (Controller world) Error engine.Settings
  settings c uid = Asking.settings world c uid

  unfoldable pub list_indexes :
      Call → (Uuid → Indexing.Faults) → Exec (Controller world) Error (List IndexMetadata)
  list_indexes c fault = Asking.list_indexes world c fault

  unfoldable pub index : Call → Text → Exec (Controller world) Error IndexMetadata
  index c uid = Asking.get_index world c uid

  unfoldable pub create_index :
      Call → Text → Option String → Exec (Controller world) Error IndexMetadata
  create_index c uid primary_key = do
    meta ← Controlling.create_index world c (record { uid = some uid; primary_key = primary_key })
    pure meta
