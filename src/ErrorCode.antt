-- ===== src/ErrorCode.antt =====
-- The error codes, meilisearch-error/src/lib.rs. A status is its number (`StatusCode` of the
-- `actix-http` crate).
pub mod Codes
use transplant.Base.{ℕ, String}
use Prim.Native.String.{◌++◌}

pub data ErrorType : Type 0 where
  internal_error invalid_request_error authentication_error : ErrorType

-- `Display` of `ErrorType`.
unfoldable pub show_type : ErrorType → String
show_type internal_error = "internal_error"
show_type invalid_request_error = "invalid_request_error"
show_type authentication_error = "authentication_error"

pub data Code : Type 0 where
  create_index index_already_exists index_not_found invalid_index_uid open_index invalid_state :
      Code
  missing_primary_key primary_key_already_present max_fields_limit_exceeded missing_document_id :
      Code
  facet filter bad_parameter bad_request document_not_found internal invalid_token : Code
  missing_authorization_header not_found payload_too_large retrieve_document search_documents : Code
  unsupported_media_type dump_already_in_progress dump_process_failed : Code

pub record ErrCode : Type 0 where
  pub status_code : ℕ
  pub error_type : ErrorType
  pub error_name : String

abbrev pub authentication_code : String → ℕ → ErrCode
authentication_code name status = record {
  status_code = status;
  error_type = authentication_error;
  error_name = name;
}

abbrev pub internal_code : String → ℕ → ErrCode
internal_code name status = record {
  status_code = status;
  error_type = internal_error;
  error_name = name;
}

abbrev pub invalid_code : String → ℕ → ErrCode
invalid_code name status = record {
  status_code = status;
  error_type = invalid_request_error;
  error_name = name;
}

unfoldable pub err_code : Code → ErrCode
err_code create_index = internal_code "index_creation_failed" 400
err_code index_already_exists = invalid_code "index_already_exists" 400
err_code index_not_found = invalid_code "index_not_found" 404
err_code invalid_index_uid = invalid_code "invalid_index_uid" 400
err_code open_index = internal_code "index_not_accessible" 500
err_code invalid_state = internal_code "invalid_state" 500
err_code missing_primary_key = invalid_code "missing_primary_key" 400
err_code primary_key_already_present = invalid_code "primary_key_already_present" 400
err_code max_fields_limit_exceeded = invalid_code "max_fields_limit_exceeded" 400
err_code missing_document_id = invalid_code "missing_document_id" 400
err_code facet = invalid_code "invalid_facet" 400
err_code filter = invalid_code "invalid_filter" 400
err_code bad_parameter = invalid_code "bad_parameter" 400
err_code bad_request = invalid_code "bad_request" 400
err_code document_not_found = invalid_code "document_not_found" 404
err_code internal = internal_code "internal" 500
err_code invalid_token = authentication_code "invalid_token" 403
err_code missing_authorization_header = authentication_code "missing_authorization_header" 401
err_code not_found = invalid_code "not_found" 404
err_code payload_too_large = invalid_code "payload_too_large" 413
err_code retrieve_document = internal_code "unretrievable_document" 400
err_code search_documents = internal_code "search_error" 400
err_code unsupported_media_type = invalid_code "unsupported_media_type" 415
err_code dump_already_in_progress = invalid_code "dump_already_in_progress" 409
err_code dump_process_failed = internal_code "dump_process_failed" 500

unfoldable pub http : Code → ℕ
http c = (err_code c).status_code

unfoldable pub name : Code → String
name c = (err_code c).error_name

unfoldable pub type_ : Code → String
type_ c = show_type (err_code c).error_type

unfoldable pub url : Code → String
url c = "https://docs.meilisearch.com/errors#" ++ name c
