-- ===== src/Routes/Documents.antt =====
-- The routes for documents, meilisearch-http/src/routes/document.rs.
use transplant.Base.{ℕ, Option, none, List, [], ◌∷◌, map, String}
use transplant.Base.Outcome.{panicked}
use transplant.Base.Exec.{lift}
use transplant.Heed.Keys.{Text}
use transplant.UpdateActor.{Chunk}
use transplant.Index.Json.{Value, Document, string}
use transplant.Index.Search.{unwrap_or}
use transplant.IndexController.{Call, Status}
use transplant.Data as Serving
use transplant.Routes.{Crates, world, Route, answer, ok_json}
use transplant.Routes.Query.{split, map_option}

abbrev pub default_retrieve_documents_offset : ℕ
default_retrieve_documents_offset = 0

abbrev pub default_retrieve_documents_limit : ℕ
default_retrieve_documents_limit = 20

pub record BrowseQuery : Type 0 where
  pub offset : Option ℕ
  pub limit : Option ℕ
  pub attributes_to_retrieve : Option String

pub record UpdateDocumentsQuery : Type 0 where
  pub primary_key : Option String

-- `v.as_str().map(String::from).unwrap_or_else(|| v.to_string())`.
abbrev pub id_text : (Value → String) → Value → String
id_text to_string (string s) = s
id_text to_string v = to_string v

module _ (crates : Crates) {ResponseError : Type 0} where
  unfoldable pub get_document : Call → Text → String → Route crates ResponseError Document
  get_document c index_uid document_id =
      answer crates ok_json (Serving.retrieve_document (world crates) c index_uid document_id none)

  unfoldable pub delete_document :
      Call → Text → String → Route crates ResponseError (Status (world crates))
  delete_document c index_uid document_id =
      answer crates ok_json (Serving.delete_documents (world crates) c index_uid (document_id ∷ []))

  unfoldable pub get_all_documents :
      Call → Text → BrowseQuery → Route crates ResponseError (List Document)
  get_all_documents c index_uid params = answer crates ok_json (
      Serving.retrieve_documents (world crates) c index_uid
        (unwrap_or default_retrieve_documents_offset params.offset)
        (unwrap_or default_retrieve_documents_limit params.limit)
        (map_option split params.attributes_to_retrieve))

  unfoldable pub add_documents :
      Call
      → Text
      → UpdateDocumentsQuery
      → List Chunk
      → Route crates ResponseError (Status (world crates))
  add_documents c index_uid params body = answer crates ok_json (
      Serving.add_documents (world crates) c index_uid crates.replace_documents crates.json_format
        body params.primary_key)

  -- `todo!()`; no service of the application is made of these two.
  unfoldable pub add_documents_default :
      Text
      → UpdateDocumentsQuery
      → List Document
      → Route crates ResponseError (Status (world crates))
  add_documents_default index_uid params body = lift (panicked "not yet implemented")

  unfoldable pub update_documents_default :
      Text
      → UpdateDocumentsQuery
      → List Document
      → Route crates ResponseError (Status (world crates))
  update_documents_default index_uid params body = lift (panicked "not yet implemented")

  unfoldable pub update_documents :
      Call
      → Text
      → UpdateDocumentsQuery
      → List Chunk
      → Route crates ResponseError (Status (world crates))
  update_documents c index_uid params body = answer crates ok_json (
      Serving.add_documents (world crates) c index_uid crates.merge_documents crates.json_format
        body params.primary_key)

  unfoldable pub delete_documents :
      Call → Text → List Value → Route crates ResponseError (Status (world crates))
  delete_documents c index_uid body = answer crates ok_json (
      Serving.delete_documents (world crates) c index_uid
        (map (id_text crates.value_to_string) body))

  unfoldable pub clear_all_documents :
      Call → Text → Route crates ResponseError (Status (world crates))
  clear_all_documents c index_uid =
      answer crates ok_json (Serving.clear_documents (world crates) c index_uid)
