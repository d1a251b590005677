-- ===== src/Submission/Requests.antt =====
-- The requests on the submission of a document, in application/submission: of a submission
-- (submit-fiscal-document.service.ts), of its reconciliation
-- (request-fiscal-submission-reconciliation.service.ts), of its state
-- (get-fiscal-submission-status.service.ts) and Hacienda's callback
-- (handle-hacienda-callback.service.ts).
--
-- The tables are those of one document, which a request finds if its identifiers are the document's
-- (`is_found`). `others k` is what other processes do between two accesses.
pub mod Safety
pub mod Stale
use billing_api.Common.{
  ℕ, Bool, true, false, not, ◌||◌, List, [], ◌∷◌, take, Option, none, some, Text, codes, includes,
  is_digits, if◌then◌else◌, Result, ok, err, reject_if, ◌>>=◌, ◌>>◌,
}
use billing_api.FiscalDocument.{
  FiscalDocumentType, invoice, ticket, ServiceError, bad_request, not_found, conflict, forbidden,
}
use billing_api.Submission.StateMachine.{
  FiscalSubmissionStatus, requested, queued, submitting, acknowledged, processing, accepted,
  rejected, post_outcome_unknown, has, same, is_terminal,
}
use billing_api.Submission.State.{
  FiscalSubmission, FiscalDocumentStatus, ready_to_submit, Job, submit_job, reconcile_job,
  requested_event, Tables, publish, record_event, on_row,
}

pub record SubmissionRequest : Type 0 where
  pub document_type : FiscalDocumentType
  pub scopes : List Text
  -- The key is linked to the company.
  pub is_linked : Bool
  pub is_found : Bool
  -- The document's first XML artifact is signed and stored.
  pub is_signed : Bool

abbrev pub required_scope : FiscalDocumentType → Text
required_scope invoice = codes "invoices:write"
required_scope ticket = codes "tickets:write"

abbrev pub authorize : SubmissionRequest → Result ServiceError (Unit {0})
authorize i =
    reject_if (not (includes i.scopes (required_scope i.document_type)))
      (forbidden "INSUFFICIENT_SCOPE")
    >> reject_if (not i.is_linked) (forbidden "API_KEY_COMPANY_NOT_ALLOWED")

unfoldable pub job_name_for_submission_status : FiscalSubmissionStatus → Option Job
unfolding has
job_name_for_submission_status status =
    if has (acknowledged ∷ processing ∷ post_outcome_unknown ∷ []) status
    then some reconcile_job
    else if same status submitting
    then none
    else some submit_job

-- The row that `createOrLoadSubmission` inserts.
abbrev pub created : ℕ → FiscalSubmission
created now = record {
  status = requested;
  attempt_count = 0;
  reconciliation_attempt_count = 0;
  last_attempt_at = none;
  next_attempt_at = some now;
  last_http_status = none;
  provider_location = none;
  provider_reference = none;
  last_provider_status = none;
  last_normalized_error_code = none;
  last_sanitized_error_message = none;
  accepted_at = none;
  rejected_at = none;
  response = none;
}

-- The row of the document is unique: an insert that finds one loads it.
unfoldable pub create_or_load_submission : ℕ → Tables → FiscalSubmission × Tables
create_or_load_submission now t = elim t.submission [
  | none ↦ (created now, record t { submission = some (created now) })
  | some row ↦ (row, t)
]

abbrev pub requeued : ℕ → FiscalSubmission → FiscalSubmission
requeued now row = record row {
  status = queued;
  next_attempt_at = some now;
  last_normalized_error_code = none;
  last_sanitized_error_message = none;
}

abbrev pub is_submit_job : Option Job → Bool
is_submit_job (some submit_job) = true
is_submit_job _ = false

-- The update has no condition on the status that the row has now.
unfoldable pub mark_queued_when_safe_to_submit : ℕ → FiscalSubmission → Tables → Tables
mark_queued_when_safe_to_submit now seen t =
    if is_submit_job (job_name_for_submission_status seen.status)
    then record t { submission = on_row (requeued now) t.submission }
    else t

abbrev pub publish_job : Option Job → Tables → Tables
publish_job none t = t
publish_job (some job) t = publish job t

-- The response: the row, and the name of a job.
abbrev pub SubmissionResponse : Type 0
SubmissionResponse = Option FiscalSubmission × Job

abbrev pub named : Option Job → Job
named none = submit_job
named (some job) = job

abbrev pub row_to_submit : ℕ → Option FiscalSubmission → Tables → FiscalSubmission × Tables
row_to_submit now none t = create_or_load_submission now t
row_to_submit now (some row) t = (row, t)

abbrev pub is_closed_row : Option FiscalSubmission → Bool
is_closed_row none = false
is_closed_row (some row) = is_terminal row.status

abbrev pub is_ready : FiscalDocumentStatus → Bool
is_ready ready_to_submit = true
is_ready _ = false

-- The row of a request that only reads.
abbrev pub find_submission : SubmissionRequest → Tables → Result ServiceError FiscalSubmission
find_submission i t = elim (if i.is_found then t.submission else none) [
  | none ↦ err (not_found "FISCAL_SUBMISSION_NOT_FOUND")
  | some row ↦ ok row
]

abbrev pub cleared : ℕ → FiscalSubmission → FiscalSubmission
cleared now row = record row {
  next_attempt_at = some now;
  last_normalized_error_code = none;
  last_sanitized_error_message = none;
}

abbrev pub provider_status_of : Option Text → Option Text → Option Text
provider_status_of none previous = previous
provider_status_of (some estado) previous = some (take 40 estado)

abbrev pub called_back : ℕ → Option Text → FiscalSubmission → FiscalSubmission → FiscalSubmission
called_back now estado seen row = record row {
  last_provider_status = provider_status_of estado seen.last_provider_status;
  next_attempt_at = some now;
}

unfoldable pub get_submission_status :
    SubmissionRequest → Tables → Result ServiceError FiscalSubmission
get_submission_status i t = authorize i >> find_submission i t

module _ (now : ℕ) (others : ℕ → Tables → Tables) where
  -- From the row that is submitted, after the checks.
  unfoldable pub request_job : FiscalSubmission → Tables → SubmissionResponse × Tables
  request_job seen t =
      let job = job_name_for_submission_status seen.status in
      let t₁ = mark_queued_when_safe_to_submit now seen t in
      ((t₁.submission, named job), record_event requested_event (publish_job job (others 2 t₁)))

  -- From the document that was read in `t`.
  unfoldable pub submit_document :
      SubmissionRequest → Tables → Result ServiceError (SubmissionResponse × Tables)
  submit_document i t =
      if is_closed_row t.submission
      then ok ((t.submission, submit_job), t)
      else (reject_if (not (is_ready t.document)) (conflict "FISCAL_DOCUMENT_NOT_READY_TO_SUBMIT")
          >> (reject_if (not i.is_signed) (bad_request "SIGNED_XML_ARTIFACT_REQUIRED")
              >> (let p = row_to_submit now t.submission (others 0 t) in
                  ok (request_job p.0 (others 1 p.1)))))

  unfoldable pub submit_fiscal_document :
      SubmissionRequest → Tables → Result ServiceError (SubmissionResponse × Tables)
  submit_fiscal_document i t =
      authorize i
      >> (reject_if (not t.is_connected) (conflict "HACIENDA_CONNECTION_NOT_CONNECTED")
          >> (reject_if (not i.is_found) (not_found "FISCAL_DOCUMENT_NOT_FOUND")
              >> submit_document i (others 3 t)))

  unfoldable pub request_reconciliation :
      SubmissionRequest → Tables → Result ServiceError (Option FiscalSubmission × Tables)
  request_reconciliation i t =
      authorize i
      >> (find_submission i t >>= λ row.
          (reject_if (is_terminal row.status) (conflict "FISCAL_SUBMISSION_ALREADY_TERMINAL")
            >> (let t₁ = others 0 t in
                let t₂ = record t₁ { submission = on_row (cleared now) t₁.submission } in
                ok (t₂.submission, publish reconcile_job (others 1 t₂)))))

  -- The callback's branches on the row with its `clave`.
  unfoldable pub callback_row : Option Text → Option FiscalSubmission → Tables → Bool × Tables
  callback_row estado none t = (false, t)
  callback_row estado (some seen) t =
      if same seen.status accepted || same seen.status rejected
      then (false, t)
      else (let t₁ = others 0 t in
          let t₂ = record t₁ { submission = on_row (called_back now estado seen) t₁.submission } in
          (true, publish reconcile_job (others 1 t₂)))

  -- `clave` is absent where it is no string, and the row is found by it if `is_known`. The result says
  -- if a job was enqueued.
  unfoldable pub handle_hacienda_callback :
      Option Text → Bool → Option Text → Tables → Result ServiceError (Bool × Tables)
  handle_hacienda_callback none is_known estado t =
      err (bad_request "HACIENDA_CALLBACK_INVALID_CLAVE")
  handle_hacienda_callback (some clave) is_known estado t =
      reject_if (not (is_digits 50 clave)) (bad_request "HACIENDA_CALLBACK_INVALID_CLAVE")
      >> ok (callback_row estado (if is_known then t.submission else none) t)
