-- ===== src/Routes/Indexes.antt =====
-- The routes for indexes and their updates, meilisearch-http/src/routes/index.rs, and for the keys,
-- key.rs beside.
use transplant.Base.{ℕ, Option, List, String}
use transplant.Heed.Keys.{Text}
use transplant.Updates.{Uuid}
use transplant.IndexActor as Indexing
use transplant.IndexController.{Call, Status, IndexMetadata}
use transplant.Data as Serving
use transplant.Routes.{Crates, world, Route, answer, HttpResponse, ok_json, no_content}
use transplant.Authentication.{ApiKeys}

pub record IndexCreateRequest : Type 0 where
  pub uid : Text
  pub primary_key : Option String

pub record UpdateIndexRequest : Type 0 where
  pub uid : Option Text
  pub primary_key : Option String

pub record KeysResponse : Type 0 where
  pub private_key : Option String
  pub public_key : Option String

-- `list` of key.rs.
unfoldable pub list_keys : ApiKeys → HttpResponse KeysResponse
list_keys api_keys =
    ok_json (record { private_key = api_keys.private; public_key = api_keys.public })

module _ (crates : Crates) {ResponseError : Type 0} where
  unfoldable pub list_indexes :
      Call → (Uuid → Indexing.Faults) → Route crates ResponseError (List IndexMetadata)
  list_indexes c fault = answer crates ok_json (Serving.list_indexes (world crates) c fault)

  unfoldable pub get_index : Call → Text → Route crates ResponseError IndexMetadata
  get_index c index_uid = answer crates ok_json (Serving.index (world crates) c index_uid)

  unfoldable pub create_index : Call → IndexCreateRequest → Route crates ResponseError IndexMetadata
  create_index c body =
      answer crates ok_json (Serving.create_index (world crates) c body.uid body.primary_key)

  unfoldable pub update_index :
      Call → Text → UpdateIndexRequest → Route crates ResponseError IndexMetadata
  update_index c index_uid body =
      answer crates ok_json
        (Serving.update_index (world crates) c index_uid body.primary_key body.uid)

  unfoldable pub delete_index : Call → Text → Route crates ResponseError (Unit {0})
  delete_index c index_uid =
      answer crates (λ u. no_content) (Serving.delete_index (world crates) c index_uid)

  unfoldable pub get_update_status :
      Call → Text → ℕ → Route crates ResponseError (Status (world crates))
  get_update_status c index_uid update_id =
      answer crates ok_json (Serving.get_update_status (world crates) c index_uid update_id)

  unfoldable pub get_all_updates_status :
      Call → Text → Route crates ResponseError (List (Status (world crates)))
  get_all_updates_status c index_uid =
      answer crates ok_json (Serving.get_updates_status (world crates) c index_uid)
