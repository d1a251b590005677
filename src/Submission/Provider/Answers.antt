-- ===== src/Submission/Provider/Answers.antt =====
-- What the adapter's results say of the answer of Hacienda.
use billing_api.Common.{
  ℕ, ◌≡◌, ◌↔◌, ◌⊎◌, Bool, true, false, List, Option, none, some, Text, leb, arith, if◌then◌else◌,
}
use billing_api.Submission.StateMachine.{
  FiscalSubmissionStatus, acknowledged, technical_retry_pending, post_outcome_unknown,
  manual_review_required,
}
use billing_api.Submission.Provider.{
  HaciendaSubmissionResultKind, acknowledgement, retryable_failure, ambiguous_failure,
  non_retryable_failure, unresolved_provider_response, HttpAnswer, responded, failed, BillingAction,
  act_acknowledged, act_unresolved, act_non_retryable, act_retryable, act_outcome_unknown,
  classify_recepcion_status, classify_range, map_http_error, map_http_status, submit_result,
  retryable, non_retryable,
}

-- The result of the adapter for an action of the table.
abbrev pub action_of : BillingAction → HaciendaSubmissionResultKind × FiscalSubmissionStatus
action_of act_acknowledged = (acknowledgement, acknowledged)
action_of act_unresolved = (unresolved_provider_response, post_outcome_unknown)
action_of act_non_retryable = (non_retryable_failure, manual_review_required)
action_of act_retryable = (retryable_failure, technical_retry_pending)
action_of act_outcome_unknown = (ambiguous_failure, post_outcome_unknown)

-- What Axios makes of a status, by default: a response if it is a 2xx.
abbrev pub answer : ℕ → List (Text × Text) → HttpAnswer (Unit {0})
answer status headers =
    if leb 200 status
    then (if leb 300 status then failed (some status) headers else responded status headers tt)
    else failed (some status) headers

-- For every status of an answer to a POST, the kind and the next status of the adapter's result are
-- those of the action that the status table names.
pub submit_result-classify_recepcion_status :
    (to_ms : Text → Option ℕ) (clave : Text) (status : ℕ) (headers : List (Text × Text))
    → (
      (submit_result to_ms clave (answer status headers)).kind,
      (submit_result to_ms clave (answer status headers)).next_status,
    )
      ≡ action_of (classify_recepcion_status status).billing_action
unfolding submit_result map_http_error map_http_status classify_recepcion_status classify_range
    retryable non_retryable
submit_result-classify_recepcion_status to_ms clave status headers = ground arith

-- The status of a failed answer.
abbrev pub failed_with : {B : Type 0} → HttpAnswer B → Option ℕ
failed_with (failed status headers) = status
failed_with (responded status headers body) = none

-- The statuses that a result of a POST may ask for.
abbrev pub is_post_status : FiscalSubmissionStatus → Bool
is_post_status acknowledged = true
is_post_status post_outcome_unknown = true
is_post_status technical_retry_pending = true
is_post_status manual_review_required = true
is_post_status _ = false

-- A POST never decides a submission: its result asks for one of four statuses that are not
-- terminal, and for a new POST exactly if Hacienda refused with 401 or 429.
submit_result-next_status :
    (to_ms : Text → Option ℕ) (clave : Text) (a : HttpAnswer (Unit {0}))
    → (is_post_status (submit_result to_ms clave a).next_status ≡ true)
      × (((submit_result to_ms clave a).next_status ≡ technical_retry_pending)
          ↔ ((failed_with a ≡ some 401) ⊎ (failed_with a ≡ some 429)))
unfolding submit_result map_http_error map_http_status retryable non_retryable
submit_result-next_status to_ms clave (responded status headers body) = ground arith
submit_result-next_status to_ms clave (failed (some status) headers) = ground arith
submit_result-next_status to_ms clave (failed none headers) = ground arith
