-- ===== src/HttpError/Body.antt =====
-- The body of the answer to a refused request, `Serialize` and `error_response` of
-- meilisearch-http/src/error.rs, over the methods of the trait `ErrorCode` of meilisearch-error/src/lib.rs,
-- and the conversions of foreign errors beside them.
use transplant.Base.{ℕ, String}
use transplant.Base.Outcome.{Outcome, ok, ◌>>=◌}
use transplant.ErrorCode.{name, type_, url}
use transplant.HttpError.{
  Error, FacetCountError, ResponseError, of_error, of_facet_count, internal, syntax_error,
  unexpected_token, show_error, show_facet_error, response_code, status_code,
}
use transplant.Index.Json.{Fields, string, field, end}

-- `From<std::io::Error>`, `From<HttpError>` and `From<serde_json::error::Error>`, of the error's text.
unfoldable pub from_foreign : String → Error
from_foreign e = internal e

-- `From<serde_json::error::Error>` for `FacetCountError`.
unfoldable pub facet_from_json : String → FacetCountError
facet_from_json e = syntax_error e

-- `FacetCountError::unexpected_token`.
unfoldable pub unexpected : {A : Type 0} → (A → String) → A → String → FacetCountError
unexpected to_string found expected = unexpected_token (to_string found) expected

module _ {E : Type 0} where
  unfoldable pub error_name : ResponseError → Outcome E String
  error_name e = response_code e >>= λ c. ok (name c)

  unfoldable pub error_type : ResponseError → Outcome E String
  error_type e = response_code e >>= λ c. ok (type_ c)

  unfoldable pub error_url : ResponseError → Outcome E String
  error_url e = response_code e >>= λ c. ok (url c)

module _ (show_nat : ℕ → String) where
  -- `Display` of the error in the box.
  unfoldable pub show_response : ResponseError → String
  show_response (of_error e) = show_error show_nat e
  show_response (of_facet_count e) = show_facet_error e

  unfoldable pub serialize : {E : Type 0} → ResponseError → Outcome E Fields
  unfolding error_name error_type error_url
  serialize e = do
    error_code ← error_name e
    kind ← error_type e
    link ← error_url e
    ok (
        field "message" (string (show_response e)) (
          field "errorCode" (string error_code)
            (field "errorType" (string kind) (field "errorLink" (string link) end))))

  pub record ErrorResponse : Type 0 where
    pub status : ℕ
    pub body : Fields

  unfoldable pub error_response : {E : Type 0} → ResponseError → Outcome E ErrorResponse
  unfolding serialize
  error_response e = do
    status ← status_code e
    body ← serialize e
    ok (record { status = status; body = body })
