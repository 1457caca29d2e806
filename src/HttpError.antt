-- ===== src/HttpError.antt =====
-- The errors of the server and their conversions, meilisearch-http/src/error.rs. The texts of the
-- foreign errors are arguments, already converted by `to_string`.
pub mod Payload
pub mod Body
pub mod Coded
mod Tests
use transplant.Base.{ℕ, String}
use transplant.Base.Outcome.{Outcome, ok, err, panicked, ◌>>=◌}
use transplant.ErrorCode.{Code, http}
use Prim.Native.String.{◌++◌}

pub data Error : Type 0 where
  bad_parameter : String → String → Error
  bad_request create_index document_not_found index_not_found index_already_exists internal :
      String → Error
  invalid_index_uid : Error
  invalid_token : String → Error
  missing_authorization_header : Error
  not_found open_index : String → Error
  retrieve_document : ℕ → String → Error
  search_documents : String → Error
  payload_too_large unsupported_media_type dump_already_in_progress : Error
  dump_process_failed : String → Error

unfoldable pub error_code : {E : Type 0} → Error → Outcome E Code
error_code (bad_parameter p e) = ok Code.bad_parameter
error_code (bad_request e) = ok Code.bad_request
error_code (create_index e) = ok Code.create_index
error_code (document_not_found e) = ok Code.document_not_found
error_code (index_not_found e) = ok Code.index_not_found
error_code (index_already_exists e) = ok Code.index_already_exists
error_code (internal e) = ok Code.internal
error_code invalid_index_uid = ok Code.invalid_index_uid
error_code (invalid_token e) = ok Code.invalid_token
error_code missing_authorization_header = ok Code.missing_authorization_header
error_code (not_found e) = ok Code.not_found
error_code (open_index e) = ok Code.open_index
error_code (retrieve_document id e) = ok Code.retrieve_document
error_code (search_documents e) = ok Code.search_documents
error_code payload_too_large = ok Code.payload_too_large
error_code unsupported_media_type = ok Code.unsupported_media_type
error_code dump_already_in_progress = panicked "internal error: entered unreachable code"
error_code (dump_process_failed e) = panicked "internal error: entered unreachable code"

module _ (show_nat : ℕ → String) where
  -- `Display`; `show_nat` is how a `u32` is printed.
  pub show_error : Error → String
  show_error (bad_parameter p e) = "Url parameter " ++ p ++ " error: " ++ e
  show_error (bad_request e) = e
  show_error (create_index e) = "Impossible to create index; " ++ e
  show_error (document_not_found id) = "Document with id " ++ id ++ " not found"
  show_error (index_not_found uid) = "Index " ++ uid ++ " not found"
  show_error (index_already_exists uid) = "Index " ++ uid ++ " already exists"
  show_error (internal e) = e
  show_error invalid_index_uid =
      "Index must have a valid uid; Index uid can be of type integer or string only composed of alphanumeric characters, hyphens (-) and underscores (_)."
  show_error (invalid_token e) = "Invalid API key: " ++ e
  show_error missing_authorization_header = "You must have an authorization token"
  show_error (not_found e) = e ++ " not found"
  show_error (open_index e) = "Impossible to open index; " ++ e
  show_error (retrieve_document id e) =
      "Impossible to retrieve the document with id: " ++ show_nat id ++ "; " ++ e
  show_error (search_documents e) = "Impossible to search documents; " ++ e
  show_error payload_too_large = "Payload too large"
  show_error unsupported_media_type = "Unsupported media type"
  show_error dump_already_in_progress = "Another dump is already in progress"
  show_error (dump_process_failed e) = "Dump process failed: " ++ e

pub data FacetCountError : Type 0 where
  attribute_not_set syntax_error : String → FacetCountError
  unexpected_token : String → String → FacetCountError
  no_facet_set : FacetCountError

-- `Display`; the expected tokens of an unexpected one are already printed.
pub show_facet_error : FacetCountError → String
show_facet_error (attribute_not_set attr) = "Attribute " ++ attr ++ " is not set as facet"
show_facet_error (syntax_error msg) = "Syntax error: " ++ msg
show_facet_error (unexpected_token found expected) =
    "Unexpected " ++ found ++ " found, expected " ++ expected
show_facet_error no_facet_set = "Can't perform facet count, as no facet is set"

-- `Box<dyn ErrorCode>`, with the two types that the repository puts in it.
pub data ResponseError : Type 0 where
  of_error : Error → ResponseError
  of_facet_count : FacetCountError → ResponseError

abbrev pub facet_code : FacetCountError → Code
facet_code e = Code.bad_request

-- `From<anyhow::Error>`, with the text of the error.
abbrev pub from_anyhow : String → ResponseError
from_anyhow e = of_error (not_found e)

unfoldable pub response_code : {E : Type 0} → ResponseError → Outcome E Code
response_code (of_error e) = error_code e
response_code (of_facet_count e) = ok (facet_code e)

unfoldable pub status_code : {E : Type 0} → ResponseError → Outcome E ℕ
status_code e = response_code e >>= λ c. ok (http c)

-- The errors of `actix-web` that a body or a query is refused with.
pub data JsonPayloadError : Type 0 where
  deserialize : String → JsonPayloadError
  overflow content_type : JsonPayloadError
  payload : String → JsonPayloadError

pub data QueryPayloadError : Type 0 where
  deserialize_query : String → QueryPayloadError

unfoldable pub from_json_payload : JsonPayloadError → Error
from_json_payload (deserialize e) = bad_request ("Invalid JSON: " ++ e)
from_json_payload overflow = payload_too_large
from_json_payload content_type = unsupported_media_type
from_json_payload (payload e) = bad_request ("Problem while decoding the request: " ++ e)

unfoldable pub from_query_payload : QueryPayloadError → Error
from_query_payload (deserialize_query e) = bad_request ("Invalid query parameters: " ++ e)

unfoldable pub payload_error_handler : {A : Type 0} → (A → Error) → A → ResponseError
payload_error_handler into e = of_error (into e)
