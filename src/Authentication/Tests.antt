-- ===== src/Authentication/Tests.antt =====
-- Concrete requests to the middleware of meilisearch-http/src/helpers/authentication.rs and to the
-- error table of meilisearch-error/src/lib.rs and meilisearch-http/src/error.rs.
use transplant.Base.{ℕ, ◌≡◌, ◌≢◌, ◌↔◌, ◌⊎◌, ◌≤◌, ◌<◌, none, some, String}
use transplant.Base.Outcome.{Outcome, ok, err}
use transplant.ErrorCode.{Code, ErrorType, err_code, http}
use transplant.ErrorCode.Codes.{err_code-classes}
use transplant.HttpError.{
  ResponseError, of_error, invalid_token, missing_authorization_header, JsonPayloadError,
  status_code, payload_error_handler, from_json_payload,
}
use transplant.Authentication.{ApiKeys, Header, call, private_acl, readable, missing, unreadable}
use transplant.Authentication.Access.{IsGranted, call-answers}

abbrev keys : ApiKeys
keys = record { public = some "p"; private = some "q"; master = some "m" }

abbrev answer : Outcome ResponseError ℕ
answer = ok 200

call-answers_example :
    (keys.master ≡ none → (header : Header) → call private_acl (some keys) header answer ≡ answer)
    × (keys.master ≢ none
        → (call private_acl (some keys) missing answer
            ≡ err (of_error missing_authorization_header))
          × (call private_acl (some keys) unreadable answer
              ≡ err (of_error missing_authorization_header))
          × ((k : String)
              → (IsGranted private_acl keys k
                  × (call private_acl (some keys) (readable k) answer ≡ answer))
                ⊎ ((IsGranted private_acl keys k → ⊥)
                    × (call private_acl (some keys) (readable k) answer
                        ≡ err (of_error (invalid_token k))))))
call-answers_example = call-answers private_acl keys answer

err_code-classes_example :
    (((err_code Code.invalid_token).error_type ≡ ErrorType.authentication_error)
      ↔ ((http Code.invalid_token ≡ 401) ⊎ (http Code.invalid_token ≡ 403)))
    × ((400 ≤ http Code.invalid_token) × (http Code.invalid_token < 600))
    × (500 ≤ http Code.invalid_token
        → (err_code Code.invalid_token).error_type ≡ ErrorType.internal_error)
err_code-classes_example = err_code-classes Code.invalid_token

abbrev status : Outcome String ℕ
status = status_code (payload_error_handler from_json_payload JsonPayloadError.overflow)
