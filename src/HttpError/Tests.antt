-- ===== src/HttpError/Tests.antt =====
-- Two concrete refusals, by meilisearch-http/src/error.rs.
use transplant.Base.{ℕ, ◌≡◌, refl, String}
use transplant.ErrorCode.{http, name, type_, url, err_code, show_type}
use transplant.Index.Json.{string, field, end, lookup}
use transplant.HttpError.{
  of_error, of_facet_count, bad_request, no_facet_set, response_code, error_code, show_error,
  show_facet_error, status_code,
}
use transplant.HttpError.Body.{
  ErrorResponse, error_response, serialize, error_name, error_type, error_url, show_response,
}
use transplant.HttpError.Coded.{error_response-code}

abbrev show_nat : ℕ → String
show_nat n = "0"

abbrev refused : String → ErrorResponse show_nat
refused message = record {
  status = 400;
  body = field "message" (string message) (
      field "errorCode" (string "bad_request") (
        field "errorType" (string "invalid_request_error")
          (field "errorLink" (string "https://docs.meilisearch.com/errors#bad_request") end)));
}

error_response-code_example :
    ((refused "no").status ≡ (refused "Can't perform facet count, as no facet is set").status)
    × (lookup "errorType" (refused "no").body
        ≡ lookup "errorType" (refused "Can't perform facet count, as no facet is set").body)
    × (lookup "errorLink" (refused "no").body
        ≡ lookup "errorLink" (refused "Can't perform facet count, as no facet is set").body)
    × (response_code {E = String} (of_error (bad_request "no"))
        ≡ response_code {E = String} (of_facet_count no_facet_set))
unfolding error_response serialize error_name error_type error_url show_response response_code
    error_code status_code http name type_ url err_code show_type lookup show_error show_facet_error
error_response-code_example =
    error_response-code show_nat {E = String} (of_error (bad_request "no"))
      (of_facet_count no_facet_set) (refused "no")
      (refused "Can't perform facet count, as no facet is set") refl refl refl
