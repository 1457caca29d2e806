-- ===== src/HttpError/Coded.antt =====
-- What the body of a refusal says of its error, meilisearch-http/src/error.rs.
use transplant.Base.{ℕ, ◌≡◌, inl, inr, sym, ap, ◌∙◌, some, String, arith}
use transplant.Base.Outcome.{ok, Outcome-cases}
use transplant.ErrorCode.{Code, http, name, type_, url}
use transplant.ErrorCode.Codes.{name-injective}
use transplant.HttpError.{ResponseError, response_code, status_code}
use transplant.Index.Json.{string, field, end, lookup}
use transplant.HttpError.Body.{
  ErrorResponse, error_response, serialize, error_name, error_type, error_url, show_response,
}

module _ (show_nat : ℕ → String) where
  -- The response to an error that has this code.
  abbrev coded : ResponseError → Code → ErrorResponse show_nat
  coded e c = record {
    status = http c;
    body = field "message" (string (show_response show_nat e)) (
        field "errorCode" (string (name c))
          (field "errorType" (string (type_ c)) (field "errorLink" (string (url c)) end)));
  }

  error_response-coded :
      {E : Type 0} (e : ResponseError) (r : ErrorResponse show_nat)
      → error_response show_nat {E = E} e ≡ ok r
      → (c : Code) × (response_code {E = E} e ≡ ok c) × (r ≡ coded e c)
  unfolding error_response serialize error_name error_type error_url status_code
  error_response-coded {E} e r h = elim (Outcome-cases (response_code {E = E} e)) [
    | inl (c, is_c) ↦ (c, is_c, ground (arith, h, is_c))
    | inr (inl (x, q)) ↦ absurd (ground (arith, h, q))
    | inr (inr (x, q)) ↦ absurd (ground (arith, h, q))
  ]

  code_of :
      (e : ResponseError) (c : Code) (r : ErrorResponse show_nat)
      → r ≡ coded e c
      → lookup "errorCode" r.body ≡ some (string (name c))
  unfolding lookup
  code_of e c r h = ap (λ x. lookup "errorCode" x.body) h

  -- Two refusals whose bodies have the same error code have the same status, error type and link, and their
  -- errors have the same code of the table.
  pub error_response-code :
      {E : Type 0} (e e' : ResponseError) (r r' : ErrorResponse show_nat)
      → error_response show_nat {E = E} e ≡ ok r
      → error_response show_nat {E = E} e' ≡ ok r'
      → lookup "errorCode" r.body ≡ lookup "errorCode" r'.body
      → (r.status ≡ r'.status)
        × (lookup "errorType" r.body ≡ lookup "errorType" r'.body)
        × (lookup "errorLink" r.body ≡ lookup "errorLink" r'.body)
        × (response_code {E = E} e ≡ response_code {E = E} e')
  unfolding lookup
  error_response-code e e' r r' h h' same =
      let (c, is_c, coded_c) = error_response-coded e r h in
      let (c', is_c', coded_c') = error_response-coded e' r' h' in
      let named : name c ≡ name c' =
        same_string (sym (code_of e c r coded_c) ∙ (same ∙ code_of e' c' r' coded_c')) in
      let one : c ≡ c' = name-injective c c' named in
      (
        ap (λ x. x.status) coded_c ∙ (ap http one ∙ sym (ap (λ x. x.status) coded_c')),
        ap (λ x. lookup "errorType" x.body) coded_c
            ∙ (ap (λ x. some (string (type_ x))) one
                ∙ sym (ap (λ x. lookup "errorType" x.body) coded_c')),
        ap (λ x. lookup "errorLink" x.body) coded_c
            ∙ (ap (λ x. some (string (url x))) one
                ∙ sym (ap (λ x. lookup "errorLink" x.body) coded_c')),
        is_c ∙ (ap ok one ∙ sym is_c'),
      )
    where
      same_string : {a b : String} → some (string a) ≡ some (string b) → a ≡ b
      same_string e = ground (arith, e)
