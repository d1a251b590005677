-- ===== src/Submission/Worker/Resend.antt =====
-- What a reconciliation that Hacienda does not answer does to a submission that it has acknowledged.
use billing_api.Common.{
  ℕ, ◌≡◌, ◌⊎◌, ap, ◌∙◌, refl, Bool, true, false, List, ◌∷◌, Option, none, some, Text, eq_text, ok,
  leb, arith,
}
use billing_api.Submission.StateMachine.{
  acknowledged, processing, technical_retry_pending, is_terminal, has, can_transition,
  allowed_transitions, evaluate_transition,
}
use billing_api.Submission.Provider.{
  failed, HaciendaSubmissionResult, query_status_result, map_http_error, map_http_status, retryable,
}
use billing_api.Submission.State.{
  FiscalSubmission, submit_job, queried, record_event, Tables, apply_provider_result,
  apply_transition, commit_result, follow_up, next_attempt_at,
}
use billing_api.Submission.Worker
use billing_api.Submission.Requests.Safety.{quiet}

-- No answer, or an error of the server.
abbrev pub is_unavailable : Option ℕ → Bool
is_unavailable none = true
is_unavailable (some status) = leb 500 status

unavailable_code :
    (to_ms : Text → Option ℕ) (status : ℕ)
    → Worker.is_token_expired (retryable to_ms (some status) "HACIENDA_UNAVAILABLE") ≡ false
unfolding retryable eq_text
unavailable_code to_ms status = refl

-- The failed query's result.
query_status_result-unavailable :
    (to_ms : Text → Option ℕ) (decode_base64 : Text → Text) (status : Option ℕ)
    (headers : List (Text × Text))
    → is_unavailable status ≡ true
    → let result = query_status_result to_ms decode_base64 (failed status headers) in
      (result.next_status ≡ technical_retry_pending)
      × (Worker.is_token_expired result ≡ false)
      × (result.response_artifact ≡ none)
      × (result.rate_limit ≡ none)
unfolding query_status_result map_http_error map_http_status retryable eq_text
query_status_result-unavailable to_ms decode_base64 none headers h = (refl, refl, refl, refl)
query_status_result-unavailable to_ms decode_base64 (some status) headers h =
    ground (arith, unavailable_code to_ms status)

-- The transition that the result makes.
settle-resends :
    (s : Worker.Services) (result : HaciendaSubmissionResult) (t : Tables) (row : FiscalSubmission)
    → t.submission ≡ some row
    → (row.status ≡ acknowledged) ⊎ (row.status ≡ processing)
    → result.next_status ≡ technical_retry_pending
    → result.response_artifact ≡ none
    → result.rate_limit ≡ none
    → (t' : Tables) × (Worker.settle s quiet result t ≡ ok t')
      × (Worker.is_claimable t'.submission ≡ true)
      × (t'.jobs ≡ submit_job ∷ t.jobs)
unfolding Worker.settle Worker.apply Worker.schedule_next apply_provider_result evaluate_transition
    can_transition allowed_transitions is_terminal has apply_transition commit_result follow_up
    next_attempt_at
settle-resends s result t row e known next artifact rate = (
  Worker.schedule_next result (follow_up result none (commit_result s.now row result none t)),
  ground arith,
  ground arith,
  ground arith,
)

-- A reconciliation with an answer for a token that has not expired settles it.
reconcile-settles :
    (s : Worker.Services) (t : Tables) (row : FiscalSubmission) (result : HaciendaSubmissionResult)
    → s.token ≡ true
    → s.answer ≡ some result
    → t.is_connected ≡ true
    → t.submission ≡ some row
    → (row.status ≡ acknowledged) ⊎ (row.status ≡ processing)
    → Worker.is_token_expired result ≡ false
    → Worker.handle_reconcile_job s quiet t
      ≡ Worker.settle s quiet result (record_event queried (Worker.count_reconciliation s.now t))
unfolding Worker.handle_reconcile_job Worker.load_context Worker.load_connection
    Worker.reconcile_context Worker.ask_and_settle Worker.ask Worker.send Worker.send_again
    is_terminal has
reconcile-settles s t row result token answer connected e known kept = ground arith

-- A reconciliation with no interference from other processes that has a connection and a token, and
-- whose query gets no answer or an error of the server, moves a submission that Hacienda has
-- acknowledged or is processing back to those that are sent: a submit job is published for it, and may
-- claim it.
pub handle_reconcile_job-resends :
    (to_ms : Text → Option ℕ) (decode_base64 : Text → Text) (status : Option ℕ)
    (headers : List (Text × Text)) (s : Worker.Services) (t : Tables) (row : FiscalSubmission)
    → is_unavailable status ≡ true
    → s.token ≡ true
    → s.answer ≡ some (query_status_result to_ms decode_base64 (failed status headers))
    → t.is_connected ≡ true
    → t.submission ≡ some row
    → (row.status ≡ acknowledged) ⊎ (row.status ≡ processing)
    → (t' : Tables) × (Worker.handle_reconcile_job s quiet t ≡ ok t')
      × (Worker.is_claimable t'.submission ≡ true)
      × (t'.jobs ≡ submit_job ∷ t.jobs)
handle_reconcile_job-resends to_ms decode_base64 status headers s t row h token answer connected e
      known =
    let result = query_status_result to_ms decode_base64 (failed status headers) in
    let (next, kept, artifact, rate) =
      query_status_result-unavailable to_ms decode_base64 status headers h in
    let t₁ = record_event queried (Worker.count_reconciliation s.now t) in
    let asks : Worker.handle_reconcile_job s quiet t ≡ Worker.settle s quiet result t₁ =
      reconcile-settles s t row result token answer connected e known kept in
    let (t', settles, claimable, jobs) =
      settle-resends s result t₁ (Worker.counted s.now row)
        (ap (Worker.on_row (Worker.counted s.now)) e) known next artifact rate in
    (t', asks ∙ settles, claimable, jobs)
