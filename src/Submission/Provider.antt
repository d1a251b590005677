-- ===== src/Submission/Provider.antt =====
-- application/submission/ports/hacienda-submission.port.ts,
-- infrastructure/submission/hacienda-recepcion-status.table.ts and hacienda-recepcion.adapter.ts: what
-- the adapter makes of an answer of Hacienda. `HttpAnswer` is what Axios came to: a response of a
-- 2xx status, or an error with the status of its response, if there is one.
--
-- Parameters: `decode_base64`, and `to_ms`, which gives `Number(s) * 1000` or `none` where that is NaN.
-- The provider metadata, which only serve diagnostics, and the request itself are left out.
pub mod Answers
use billing_api.Common.{
  ℕ, Bool, true, false, ◌&&◌, ◌||◌, not, List, [], ◌∷◌, ◌++◌, String, Option, none, some, Text,
  codes, eq_text, to_decimal, find, leb, ltb, ◌==◌, if◌then◌else◌,
}
use billing_api.Submission.StateMachine.{
  FiscalSubmissionStatus, acknowledged, processing, accepted, rejected, technical_retry_pending,
  post_outcome_unknown, manual_review_required,
}

pub data HaciendaSubmissionResultKind : Type 0 where
  acknowledgement in_process acceptance rejection retryable_failure : HaciendaSubmissionResultKind
  ambiguous_failure non_retryable_failure : HaciendaSubmissionResultKind
  unresolved_provider_response : HaciendaSubmissionResultKind

-- `retry_after_seconds` in milliseconds; `some none` is NaN.
pub record HaciendaRateLimitMetadata : Type 0 where
  pub limit : Option Text
  pub remaining : Option Text
  pub reset : Option Text
  pub retry_after : Option (Option ℕ)

pub record HaciendaSubmissionArtifact : Type 0 where
  pub content : Text
  pub content_type : Text

pub data RecepcionStatusClassification : Type 0 where
  documented_successful_receipt documented_validation_error : RecepcionStatusClassification
  documented_auth_error undocumented_2xx undocumented_4xx : RecepcionStatusClassification
  status_rate_limit ambiguous_server_error : RecepcionStatusClassification

pub record HaciendaSubmissionResult : Type 0 where
  pub kind : HaciendaSubmissionResultKind
  pub next_status : FiscalSubmissionStatus
  pub provider_status : Option Text
  pub provider_location : Option Text
  pub provider_reference : Option Text
  pub http_status : Option ℕ
  pub normalized_error_code : Option Text
  pub sanitized_error_message : Option Text
  pub response_artifact : Option HaciendaSubmissionArtifact
  pub rate_limit : Option HaciendaRateLimitMetadata
  pub response_classification : Option RecepcionStatusClassification

-- A result with nothing but its kind and its status.
abbrev pub bare_result :
    HaciendaSubmissionResultKind → FiscalSubmissionStatus → HaciendaSubmissionResult
bare_result kind next = record {
  kind = kind;
  next_status = next;
  provider_status = none;
  provider_location = none;
  provider_reference = none;
  http_status = none;
  normalized_error_code = none;
  sanitized_error_message = none;
  response_artifact = none;
  rate_limit = none;
  response_classification = none;
}

-- The `billingAction` of the status table.
pub data BillingAction : Type 0 where
  act_acknowledged act_unresolved act_non_retryable act_retryable act_outcome_unknown :
      BillingAction

pub record RecepcionStatusInfo : Type 0 where
  pub classification : RecepcionStatusClassification
  pub in_contract : Bool
  pub meaning : Text
  pub billing_action : BillingAction

abbrev info : RecepcionStatusClassification → Bool → Text → BillingAction → RecepcionStatusInfo
info c b m a = record { classification = c; in_contract = b; meaning = m; billing_action = a }

-- The entries of `TABLE`, with their statuses.
abbrev pub recepcion_table : List (ℕ × RecepcionStatusInfo)
recepcion_table =
    (
      200,
      info undocumented_2xx false (codes "HTTP OK — not documented for POST /recepcion")
          act_unresolved,
    )
    ∷ (
      201,
      info documented_successful_receipt true (codes "Comprobante recibido; validación pendiente")
          act_acknowledged,
    )
    ∷ (
      202,
      info undocumented_2xx false
          (codes "Not documented for POST /recepcion in the Hacienda API contract") act_unresolved,
    )
    ∷ (
      204,
      info undocumented_2xx false (codes "No Content — not documented for POST /recepcion")
          act_unresolved,
    )
    ∷ (
      400,
      info documented_validation_error true
          (codes "Error de validación — X-Error-Cause / validation-exception contain the reason")
          act_non_retryable,
    )
    ∷ (
      401,
      info documented_auth_error true (codes "No autorizado — access token rejected or expired")
          act_retryable,
    )
    ∷ (
      403,
      info undocumented_4xx false (codes "Forbidden — not documented for POST /recepcion")
          act_non_retryable,
    )
    ∷ (
      404,
      info undocumented_4xx false (codes "Not Found — not documented for POST /recepcion")
          act_non_retryable,
    )
    ∷ (
      409,
      info undocumented_4xx false (codes "Conflict — not documented for POST /recepcion")
          act_non_retryable,
    )
    ∷ (429, info status_rate_limit false (codes "Rate limit exceeded") act_retryable)
    ∷ (
      500,
      info ambiguous_server_error false
          (codes
            "Internal Server Error — POST outcome ambiguous; reconcile via GET /recepcion/{clave}")
          act_outcome_unknown,
    )
    ∷ (
      502,
      info ambiguous_server_error false (codes "Bad Gateway — POST outcome ambiguous")
          act_outcome_unknown,
    )
    ∷ (
      503,
      info ambiguous_server_error false (codes "Service Unavailable — POST outcome ambiguous")
          act_outcome_unknown,
    )
    ∷ (
      504,
      info ambiguous_server_error false (codes "Gateway Timeout — POST outcome ambiguous")
          act_outcome_unknown,
    )
    ∷ []

abbrev http_text : ℕ → String → Text
http_text status rest = codes "HTTP " ++ to_decimal status ++ codes rest

-- The ranges for a status that the table does not list.
unfoldable pub classify_range : ℕ → RecepcionStatusInfo
classify_range status =
    if leb 200 status && ltb status 300
    then info undocumented_2xx false (http_text status " — not documented for POST /recepcion")
        act_unresolved
    else if leb 400 status && ltb status 500
    then info undocumented_4xx false (http_text status " — not documented for POST /recepcion")
        act_non_retryable
    else if leb 500 status
    then info ambiguous_server_error false (http_text status " — POST outcome ambiguous")
        act_outcome_unknown
    else info undocumented_4xx false (http_text status " — unexpected for POST /recepcion")
        act_non_retryable

abbrev pub entry_or : Option (ℕ × RecepcionStatusInfo) → RecepcionStatusInfo → RecepcionStatusInfo
entry_or none i = i
entry_or (some (n, e)) i = e

unfoldable pub classify_recepcion_status : ℕ → RecepcionStatusInfo
classify_recepcion_status status =
    entry_or (find (λ e. e.0 == status) recepcion_table) (classify_range status)

pub data HttpAnswer (Body : Type 0) : Type 0 where
  responded : ℕ → List (Text × Text) → Body → HttpAnswer Body
  failed : Option ℕ → List (Text × Text) → HttpAnswer Body

abbrev value_of : Option (Text × Text) → Option Text
value_of none = none
value_of (some (k, v)) = some v

-- The names that are looked up are in lower case.
abbrev pub header_value : List (Text × Text) → String → Option Text
header_value headers name = value_of (find (λ h. eq_text h.0 (codes name)) headers)

abbrev is_set : Option Text → Bool
is_set (some (c ∷ t)) = true
is_set _ = false

module _ (to_ms : Text → Option ℕ) where
  -- `retryAfter ? Number(retryAfter) : undefined`
  abbrev retry_after_of : Option Text → Option (Option ℕ)
  retry_after_of (some (c ∷ t)) = some (to_ms (c ∷ t))
  retry_after_of _ = none

  unfoldable pub extract_rate_limit : List (Text × Text) → Option HaciendaRateLimitMetadata
  extract_rate_limit headers =
      let limit = header_value headers "x-ratelimit-limit" in
      let remaining = header_value headers "x-ratelimit-remaining" in
      let reset = header_value headers "x-ratelimit-reset" in
      let retry_after = header_value headers "retry-after" in
      if is_set limit || is_set remaining || is_set reset || is_set retry_after
      then some (record {
        limit = limit;
        remaining = remaining;
        reset = reset;
        retry_after = retry_after_of retry_after;
      })
      else none

  unfoldable pub retryable : Option ℕ → String → HaciendaSubmissionResult
  retryable status code = record (bare_result retryable_failure technical_retry_pending) {
    http_status = status;
    normalized_error_code = some (codes code);
    sanitized_error_message =
        some (codes "Hacienda request failed with a retryable technical error.");
  }

  unfoldable pub non_retryable : ℕ → String → HaciendaSubmissionResult
  non_retryable status code = record (bare_result non_retryable_failure manual_review_required) {
    http_status = some status;
    normalized_error_code = some (codes code);
    sanitized_error_message =
        some (codes "Hacienda request failed with a non-retryable provider response.");
  }

  -- The two results of a POST whose outcome is not known.
  abbrev pub outcome_unknown : Option ℕ → HaciendaSubmissionResult
  outcome_unknown status = record (bare_result ambiguous_failure post_outcome_unknown) {
    http_status = status;
    normalized_error_code = some (codes "HACIENDA_POST_OUTCOME_UNKNOWN");
    sanitized_error_message =
        some (codes "Hacienda POST outcome is unknown and must be reconciled.");
  }

  -- `is_post` is `operation === 'POST'`.
  unfoldable pub map_http_status : ℕ → List (Text × Text) → Bool → HaciendaSubmissionResult
  map_http_status status headers is_post =
      if status == 401
      then record (retryable (some status) "HACIENDA_TOKEN_EXPIRED") {
        response_classification = some documented_auth_error;
      }
      else if status == 429
      then record (retryable (some status) "HACIENDA_RATE_LIMIT") {
        rate_limit = extract_rate_limit headers;
      }
      else if leb 500 status
      then if is_post
        then outcome_unknown (some status)
        else retryable (some status) "HACIENDA_UNAVAILABLE"
      else record (non_retryable status "HACIENDA_NON_RETRYABLE_ERROR") {
        response_classification = some (classify_recepcion_status status).classification;
      }

  unfoldable pub map_http_error : Option ℕ → List (Text × Text) → Bool → HaciendaSubmissionResult
  map_http_error (some status) headers is_post = map_http_status status headers is_post
  map_http_error none headers is_post =
      if is_post then outcome_unknown none else retryable none "HACIENDA_NETWORK_ERROR"

  -- `submitSignedDocument`, from the answer to the POST.
  unfoldable pub submit_result : Text → HttpAnswer (Unit {0}) → HaciendaSubmissionResult
  submit_result clave (failed status headers) = map_http_error status headers true
  submit_result clave (responded status headers _) =
      if status == 201
      then record (bare_result acknowledgement acknowledged) {
        http_status = some status;
        provider_location = header_value headers "location";
        provider_reference = some clave;
        response_classification = some documented_successful_receipt;
        rate_limit = extract_rate_limit headers;
      }
      else if leb 200 status && ltb status 300
      then record (bare_result unresolved_provider_response post_outcome_unknown) {
        http_status = some status;
        provider_location = header_value headers "location";
        provider_reference = some clave;
        normalized_error_code = some (codes "HACIENDA_UNDOCUMENTED_2XX_STATUS");
        sanitized_error_message = some (
            codes "Hacienda returned HTTP "
            ++ to_decimal status
            ++ codes ": "
            ++ (classify_recepcion_status status).meaning);
        response_classification = some (classify_recepcion_status status).classification;
        rate_limit = extract_rate_limit headers;
      }
      else non_retryable status "HACIENDA_UNEXPECTED_POST_STATUS"

-- The body of an answer to a query.
pub record HaciendaStatusResponse : Type 0 where
  pub ind_estado : Option Text
  pub respuesta_xml : Option Text

abbrev is_estado : Option Text → String → Bool
is_estado none t = false
is_estado (some s) t = eq_text s (codes t)

module _ (to_ms : Text → Option ℕ) (decode_base64 : Text → Text) where
  abbrev pub decode_response_artifact : Option Text → Option HaciendaSubmissionArtifact
  decode_response_artifact (some (c ∷ t)) =
      some (record { content = decode_base64 (c ∷ t); content_type = codes "application/xml" })
  decode_response_artifact _ = none

  -- The fields that every result of a query has.
  abbrev query_result :
      HaciendaSubmissionResultKind
      → FiscalSubmissionStatus
      → ℕ
      → List (Text × Text)
      → HaciendaStatusResponse
      → HaciendaSubmissionResult
  query_result kind next status headers body = record (bare_result kind next) {
    http_status = some status;
    provider_status = body.ind_estado;
    rate_limit = extract_rate_limit to_ms headers;
  }

  unfoldable pub map_status_response :
      ℕ → List (Text × Text) → HaciendaStatusResponse → HaciendaSubmissionResult
  map_status_response status headers body =
      if is_estado body.ind_estado "recibido" || is_estado body.ind_estado "procesando"
      then query_result in_process processing status headers body
      else if is_estado body.ind_estado "aceptado"
      then record (query_result acceptance accepted status headers body) {
        response_artifact = decode_response_artifact body.respuesta_xml;
      }
      else if is_estado body.ind_estado "rechazado"
      then record (query_result rejection rejected status headers body) {
        response_artifact = decode_response_artifact body.respuesta_xml;
      }
      else record (query_result non_retryable_failure manual_review_required status headers body) {
        normalized_error_code = some (codes "HACIENDA_UNKNOWN_STATUS");
        sanitized_error_message = some (codes "Hacienda returned an unsupported status.");
      }

  -- `queryStatusByClave`, from the answer to the GET.
  unfoldable pub query_status_result : HttpAnswer HaciendaStatusResponse → HaciendaSubmissionResult
  query_status_result (responded status headers body) = map_status_response status headers body
  query_status_result (failed status headers) = map_http_error to_ms status headers false
