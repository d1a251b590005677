-- ===== src/Submission/State.antt =====
-- application/submission/fiscal-submission-state.service.ts: the row of one submission, the status of
-- its document, the jobs that are published for it and the events that are recorded. `seen` is the row
-- that applyProviderResult reads first; its transaction meets the row of `tables`, which another
-- worker may have changed.
--
-- An error that is thrown is `err`, with the tables as they are then: the upload of the response
-- (`upload_fails`), and a time that is NaN, which the database refuses. The storage key and the hash
-- of an uploaded response are the argument `stored`.
pub mod Terminal
use billing_api.Common.{
  ℕ, ◌+◌, Bool, true, false, ◌&&◌, ◌||◌, List, ◌∷◌, Option, none, some, or_option, is_some, Text,
  codes, if◌then◌else◌, Result, ok, err,
}
use billing_api.Submission.StateMachine.{
  FiscalSubmissionStatus, acknowledged, processing, accepted, rejected, technical_retry_pending,
  post_outcome_unknown, TransitionResult, TransitionOutcome, applied, not_allowed,
  ignored_stale_terminal, is_terminal, same, evaluate_transition,
}
use billing_api.Submission.Provider.{
  HaciendaSubmissionResult, HaciendaRateLimitMetadata, HaciendaSubmissionArtifact,
}

pub record StoredResponse : Type 0 where
  pub storage_key : Text
  pub sha256 : Text
  pub content_type : Text
  pub received_at : ℕ

pub record FiscalSubmission : Type 0 where
  pub status : FiscalSubmissionStatus
  pub attempt_count : ℕ
  pub reconciliation_attempt_count : ℕ
  pub last_attempt_at : Option ℕ
  pub next_attempt_at : Option ℕ
  pub last_http_status : Option ℕ
  pub provider_location : Option Text
  pub provider_reference : Option Text
  pub last_provider_status : Option Text
  pub last_normalized_error_code : Option Text
  pub last_sanitized_error_message : Option Text
  pub accepted_at : Option ℕ
  pub rejected_at : Option ℕ
  pub response : Option StoredResponse

pub data FiscalDocumentStatus : Type 0 where
  ready_for_xml xml_generated xml_validated signed ready_to_submit : FiscalDocumentStatus
  document_accepted document_rejected document_superseded : FiscalDocumentStatus

pub data Job : Type 0 where
  submit_job reconcile_job : Job

-- What is recorded: a POST and a query at Hacienda, an event of the audit log, the index entry of a
-- response, and the order to deliver a response.
pub data Event : Type 0 where
  posted queried indexed_response requested_event : Event
  audited ordered_delivery : FiscalSubmissionStatus → Event

pub record Tables : Type 0 where
  pub submission : Option FiscalSubmission
  pub document : FiscalDocumentStatus
  pub is_connected : Bool
  pub jobs : List Job
  pub events : List Event

abbrev pub publish : Job → Tables → Tables
publish j t = record t { jobs = j ∷ t.jobs }

abbrev pub record_event : Event → Tables → Tables
record_event e t = record t { events = e ∷ t.events }

-- `updateMany` on the row.
abbrev pub on_row :
    (FiscalSubmission → FiscalSubmission) → Option FiscalSubmission → Option FiscalSubmission
on_row f none = none
on_row f (some row) = some (f row)

-- The test of the documents that a result leaves alone.
abbrev pub is_closed : FiscalDocumentStatus → Bool
is_closed document_accepted = true
is_closed document_rejected = true
is_closed document_superseded = true
is_closed _ = false

abbrev pub decides : FiscalSubmissionStatus → Bool
decides accepted = true
decides rejected = true
decides _ = false

-- `data: { status: nextStatus }` of a document, for a status that decides.
abbrev pub close_document : FiscalSubmissionStatus → FiscalDocumentStatus → FiscalDocumentStatus
close_document next d =
    if is_closed d
    then d
    else elim next [ accepted ↦ document_accepted | rejected ↦ document_rejected | _ ↦ d ]

abbrev pub retry_after_of : Option HaciendaRateLimitMetadata → Option (Option ℕ)
retry_after_of none = none
retry_after_of (some r) = r.retry_after

-- `now + (retryAfterSeconds ?? 60) * 1000`: `some none` is an invalid date.
abbrev pub retry_at : ℕ → Option (Option ℕ) → Option (Option ℕ)
retry_at now none = some (some (now + 60000))
retry_at now (some none) = some none
retry_at now (some (some ms)) = some (some (now + ms))

-- `nextAttemptAt`
unfoldable pub next_attempt_at : ℕ → FiscalSubmissionStatus → Option (Option ℕ) → Option (Option ℕ)
next_attempt_at now processing retry_after = some (some (now + 60000))
next_attempt_at now acknowledged retry_after = some (some (now + 60000))
next_attempt_at now post_outcome_unknown retry_after = some (some (now + 60000))
next_attempt_at now technical_retry_pending retry_after = retry_at now retry_after
next_attempt_at now _ retry_after = none

abbrev time_of : Option (Option ℕ) → Option ℕ
time_of none = none
time_of (some t) = t

abbrev pub is_invalid : Option (Option ℕ) → Bool
is_invalid (some none) = true
is_invalid _ = false

-- The data of the transaction, from the row that was read and the result.
abbrev pub updated_row :
    ℕ
    → FiscalSubmission
    → HaciendaSubmissionResult
    → Option StoredResponse
    → FiscalSubmission
    → FiscalSubmission
updated_row now seen result stored row = record row {
  status = result.next_status;
  last_http_status = result.http_status;
  provider_location = or_option result.provider_location seen.provider_location;
  provider_reference = or_option result.provider_reference seen.provider_reference;
  last_provider_status = or_option result.provider_status seen.last_provider_status;
  last_normalized_error_code = result.normalized_error_code;
  last_sanitized_error_message = result.sanitized_error_message;
  next_attempt_at =
      time_of (next_attempt_at now result.next_status (retry_after_of result.rate_limit));
  accepted_at = if same result.next_status accepted then some now else seen.accepted_at;
  rejected_at = if same result.next_status rejected then some now else seen.rejected_at;
  response = or_option stored seen.response;
}

-- The transaction: nothing on a terminal row, and the document with a status that decides.
unfoldable pub commit_result :
    ℕ → FiscalSubmission → HaciendaSubmissionResult → Option StoredResponse → Tables → Tables
commit_result now seen result stored t = elim t.submission [
  | none ↦ t
  | some row ↦ if is_terminal row.status then t else record t {
    submission = some (updated_row now seen result stored row);
    document =
        if decides result.next_status
        then close_document result.next_status t.document
        else t.document;
  }
]

-- What follows the transaction, whether it wrote or not.
unfoldable pub follow_up : HaciendaSubmissionResult → Option StoredResponse → Tables → Tables
follow_up result stored t =
    let t₁ : Tables = if is_some stored then record_event indexed_response t else t in
    let t₂ : Tables = record_event (audited result.next_status) t₁ in
    if decides result.next_status then record_event (ordered_delivery result.next_status) t₂ else t₂

-- The response that is stored for an artifact.
pub record Upload : Type 0 where
  pub fails : Bool
  pub storage_key : Text
  pub sha256 : Text

abbrev pub stored_response : ℕ → Upload → Option HaciendaSubmissionArtifact → Option StoredResponse
stored_response now upload none = none
stored_response now upload (some a) = some (record {
  storage_key = upload.storage_key;
  sha256 = upload.sha256;
  content_type = a.content_type;
  received_at = now;
})

abbrev pub note_refusal :
    TransitionResult → HaciendaSubmissionResult → FiscalSubmission → FiscalSubmission
note_refusal transition result row = record row {
  last_normalized_error_code =
      or_option result.normalized_error_code (some (codes "FISCAL_SUBMISSION_INVALID_TRANSITION"));
  last_sanitized_error_message = some (codes transition.reason);
}

-- The branch of a transition that is applied.
unfoldable pub apply_transition :
    ℕ → Upload → FiscalSubmission → HaciendaSubmissionResult → Tables → Result Tables Tables
apply_transition now upload seen result t =
    let stored = stored_response now upload result.response_artifact in
    let time = next_attempt_at now result.next_status (retry_after_of result.rate_limit) in
    if (is_some result.response_artifact && upload.fails) || is_invalid time
    then err t
    else ok (follow_up result stored (commit_result now seen result stored t))

-- The branches on the outcome of the transition.
abbrev pub apply_outcome :
    ℕ
    → Upload
    → FiscalSubmission
    → HaciendaSubmissionResult
    → TransitionResult
    → TransitionOutcome
    → Tables
    → Result Tables Tables
apply_outcome now upload seen result transition ignored_stale_terminal t = ok t
apply_outcome now upload seen result transition not_allowed t =
    ok (record t { submission = on_row (note_refusal transition result) t.submission })
apply_outcome now upload seen result transition applied t =
    apply_transition now upload seen result t

unfoldable pub apply_provider_result :
    ℕ → Upload → Option FiscalSubmission → HaciendaSubmissionResult → Tables → Result Tables Tables
apply_provider_result now upload none result t = ok t
apply_provider_result now upload (some seen) result t =
    let transition = evaluate_transition seen.status result.next_status in
    apply_outcome now upload seen result transition transition.outcome t
