-- ===== src/ErrorCode/Codes.antt =====
-- The table of codes of meilisearch-error/src/lib.rs.
use transplant.Base.{
  ◌≡◌, ◌↔◌, ◌⊎◌, ◌≤◌, ◌<◌, refl, sym, ap, ◌∙◌, arith, String, Option, none, some, List, [], ◌∷◌,
  if◌then◌else◌, str_eq,
}
use transplant.ErrorCode.{
  Code, ErrorType, err_code, http, name, create_index, index_already_exists, index_not_found,
  invalid_index_uid, open_index, invalid_state, missing_primary_key, primary_key_already_present,
  max_fields_limit_exceeded, missing_document_id, facet, filter, bad_parameter, bad_request,
  document_not_found, internal, invalid_token, missing_authorization_header, not_found,
  payload_too_large, retrieve_document, search_documents, unsupported_media_type,
  dump_already_in_progress, dump_process_failed,
}

-- All the codes, in the order of the source.
abbrev all_codes : List Code
all_codes =
    create_index ∷ index_already_exists ∷ index_not_found ∷ invalid_index_uid ∷ open_index
    ∷ invalid_state ∷ missing_primary_key ∷ primary_key_already_present ∷ max_fields_limit_exceeded
    ∷ missing_document_id ∷ facet ∷ filter ∷ bad_parameter ∷ bad_request ∷ document_not_found
    ∷ internal ∷ invalid_token ∷ missing_authorization_header ∷ not_found ∷ payload_too_large
    ∷ retrieve_document ∷ search_documents ∷ unsupported_media_type ∷ dump_already_in_progress
    ∷ dump_process_failed ∷ []

abbrev find_code : String → List Code → Option Code
find_code n [] = none
find_code n (c ∷ l) = let rest = find_code n l in if str_eq (name c) n then some c else rest

find_code-name : (c : Code) → find_code (name c) all_codes ≡ some c
unfolding name err_code
find_code-name create_index = refl
find_code-name index_already_exists = refl
find_code-name index_not_found = refl
find_code-name invalid_index_uid = refl
find_code-name open_index = refl
find_code-name invalid_state = refl
find_code-name missing_primary_key = refl
find_code-name primary_key_already_present = refl
find_code-name max_fields_limit_exceeded = refl
find_code-name missing_document_id = refl
find_code-name facet = refl
find_code-name filter = refl
find_code-name bad_parameter = refl
find_code-name bad_request = refl
find_code-name document_not_found = refl
find_code-name internal = refl
find_code-name invalid_token = refl
find_code-name missing_authorization_header = refl
find_code-name not_found = refl
find_code-name payload_too_large = refl
find_code-name retrieve_document = refl
find_code-name search_documents = refl
find_code-name unsupported_media_type = refl
find_code-name dump_already_in_progress = refl
find_code-name dump_process_failed = refl

-- Two codes with the same name are the same code.
pub name-injective : (c c' : Code) → name c ≡ name c' → c ≡ c'
name-injective c c' h =
    let found : some c ≡ some c' =
      sym (find_code-name c) ∙ ap (λ n. find_code n all_codes) h ∙ find_code-name c' in
    ground (arith, found)

-- A code is of the authentication type exactly when its status is 401 or 403; a status is between
-- 400 and 599; and a status from 500 on is of the internal type.
pub err_code-classes :
    (c : Code)
    → (((err_code c).error_type ≡ ErrorType.authentication_error)
        ↔ ((http c ≡ 401) ⊎ (http c ≡ 403)))
      × ((400 ≤ http c) × (http c < 600))
      × (500 ≤ http c → (err_code c).error_type ≡ ErrorType.internal_error)
unfolding http err_code
err_code-classes create_index = ground arith
err_code-classes index_already_exists = ground arith
err_code-classes index_not_found = ground arith
err_code-classes invalid_index_uid = ground arith
err_code-classes open_index = ground arith
err_code-classes invalid_state = ground arith
err_code-classes missing_primary_key = ground arith
err_code-classes primary_key_already_present = ground arith
err_code-classes max_fields_limit_exceeded = ground arith
err_code-classes missing_document_id = ground arith
err_code-classes facet = ground arith
err_code-classes filter = ground arith
err_code-classes bad_parameter = ground arith
err_code-classes bad_request = ground arith
err_code-classes document_not_found = ground arith
err_code-classes internal = ground arith
err_code-classes invalid_token = ground arith
err_code-classes missing_authorization_header = ground arith
err_code-classes not_found = ground arith
err_code-classes payload_too_large = ground arith
err_code-classes retrieve_document = ground arith
err_code-classes search_documents = ground arith
err_code-classes unsupported_media_type = ground arith
err_code-classes dump_already_in_progress = ground arith
err_code-classes dump_process_failed = ground arith
