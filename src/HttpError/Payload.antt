-- ===== src/HttpError/Payload.antt =====
-- The statuses that meilisearch-http/src/error.rs gives to a request that is refused.
use transplant.Base.{ℕ, ◌≡◌, ◌↔◌, ◌⊎◌, inl, inr, refl, arith, String}
use transplant.Base.Outcome.{Outcome, ok, panicked}
use transplant.ErrorCode.{http, err_code}
use transplant.HttpError.{
  Error, error_code, response_code, status_code, JsonPayloadError, from_json_payload,
  payload_error_handler, dump_already_in_progress, dump_process_failed, of_error,
}

-- A refused JSON body is answered with the status 413 and is too large, with 415 and has a wrong
-- content type, or with 400.
pub payload_error_handler-status :
    {E : Type 0} (e : JsonPayloadError)
    → let status : Outcome E ℕ = status_code (payload_error_handler from_json_payload e) in
      ((e ≡ JsonPayloadError.overflow) × (status ≡ ok 413))
      ⊎ (((e ≡ JsonPayloadError.content_type) × (status ≡ ok 415)) ⊎ (status ≡ ok 400))
unfolding status_code response_code error_code payload_error_handler from_json_payload http err_code
payload_error_handler-status (JsonPayloadError.deserialize t) = inr (inr refl)
payload_error_handler-status JsonPayloadError.overflow = inl (refl, refl)
payload_error_handler-status JsonPayloadError.content_type = inr (inl (refl, refl))
payload_error_handler-status (JsonPayloadError.payload t) = inr (inr refl)

-- Asking for the status of an error of the server panics exactly for the two errors of a dump.
pub status_code-panics :
    {E : Type 0} (e : Error)
    → ((m : String) × (status_code {E = E} (of_error e) ≡ panicked m))
      ↔ ((e ≡ dump_already_in_progress) ⊎ ((t : String) × (e ≡ dump_process_failed t)))
unfolding status_code response_code error_code
status_code-panics (Error.bad_parameter p t) =
    (λ h. absurd (ground (arith, h.1)), λ h. absurd (ground (arith, h)))
status_code-panics (Error.bad_request t) =
    (λ h. absurd (ground (arith, h.1)), λ h. absurd (ground (arith, h)))
status_code-panics (Error.create_index t) =
    (λ h. absurd (ground (arith, h.1)), λ h. absurd (ground (arith, h)))
status_code-panics (Error.document_not_found t) =
    (λ h. absurd (ground (arith, h.1)), λ h. absurd (ground (arith, h)))
status_code-panics (Error.index_not_found t) =
    (λ h. absurd (ground (arith, h.1)), λ h. absurd (ground (arith, h)))
status_code-panics (Error.index_already_exists t) =
    (λ h. absurd (ground (arith, h.1)), λ h. absurd (ground (arith, h)))
status_code-panics (Error.internal t) =
    (λ h. absurd (ground (arith, h.1)), λ h. absurd (ground (arith, h)))
status_code-panics Error.invalid_index_uid =
    (λ h. absurd (ground (arith, h.1)), λ h. absurd (ground (arith, h)))
status_code-panics (Error.invalid_token t) =
    (λ h. absurd (ground (arith, h.1)), λ h. absurd (ground (arith, h)))
status_code-panics Error.missing_authorization_header =
    (λ h. absurd (ground (arith, h.1)), λ h. absurd (ground (arith, h)))
status_code-panics (Error.not_found t) =
    (λ h. absurd (ground (arith, h.1)), λ h. absurd (ground (arith, h)))
status_code-panics (Error.open_index t) =
    (λ h. absurd (ground (arith, h.1)), λ h. absurd (ground (arith, h)))
status_code-panics (Error.retrieve_document n t) =
    (λ h. absurd (ground (arith, h.1)), λ h. absurd (ground (arith, h)))
status_code-panics (Error.search_documents t) =
    (λ h. absurd (ground (arith, h.1)), λ h. absurd (ground (arith, h)))
status_code-panics Error.payload_too_large =
    (λ h. absurd (ground (arith, h.1)), λ h. absurd (ground (arith, h)))
status_code-panics Error.unsupported_media_type =
    (λ h. absurd (ground (arith, h.1)), λ h. absurd (ground (arith, h)))
status_code-panics dump_already_in_progress = (λ h. inl refl, λ h. (_, refl))
status_code-panics (dump_process_failed t) = (λ h. inr (t, refl), λ h. (_, refl))
