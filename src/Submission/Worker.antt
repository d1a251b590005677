-- ===== src/Submission/Worker.antt =====
-- application/submission/workers/fiscal-submission-worker.service.ts: the jobs of one submission and
-- the recovery that runs at the start and every minute.
--
-- `others k` is what the other processes do to the tables at the k-th point where a job waits. The
-- services that a job asks are a `Services`: whether the signed XML can be downloaded and has its
-- hash, whether an access token is had, and what Hacienda's adapter answers (`none` where it
-- throws). A job that is published is a `Job` of the tables; when the queue starts it is not modelled.
pub mod Steps
pub mod Safety
pub mod Progress
pub mod Resend
use billing_api.Common.{
  ℕ, ◌+◌, ◌-◌, Bool, true, false, ◌&&◌, List, [], ◌∷◌, ◌++◌, Option, none, some, Text, eq_text,
  codes, leb, if◌then◌else◌, Result, ok, err, ◌>>=◌,
}
use billing_api.Submission.StateMachine.{
  FiscalSubmissionStatus, queued, submitting, acknowledged, processing, technical_retry_pending,
  post_outcome_unknown, manual_review_required, has, is_terminal, same,
}
use billing_api.Submission.Provider.{
  HaciendaSubmissionResult, HaciendaSubmissionResultKind, retryable_failure, non_retryable_failure,
  bare_result,
}
use billing_api.Submission.State.{
  FiscalSubmission, Job, submit_job, reconcile_job, posted, queried, Tables, Upload, publish,
  record_event, on_row, apply_provider_result,
}

pub record Services : Type 0 where
  pub now : ℕ
  pub upload : Upload
  pub signed_xml : Bool
  pub token : Bool
  pub refreshed_token : Bool
  pub answer : Option HaciendaSubmissionResult
  pub second_answer : Option HaciendaSubmissionResult

-- A result that the worker itself writes.
abbrev pub worker_result :
    HaciendaSubmissionResultKind → FiscalSubmissionStatus → Text → Text → HaciendaSubmissionResult
worker_result kind next code message = record (bare_result kind next) {
  normalized_error_code = some code;
  sanitized_error_message = some message;
}

abbrev pub not_connected : HaciendaSubmissionResult
not_connected =
    worker_result non_retryable_failure manual_review_required
      (codes "HACIENDA_CONNECTION_NOT_CONNECTED")
      (codes "Hacienda connection is not enabled for submission.")

abbrev pub stale_recovered : HaciendaSubmissionResult
stale_recovered =
    worker_result retryable_failure technical_retry_pending
      (codes "FISCAL_SUBMISSION_STALE_SUBMITTING_RECOVERED")
      (codes "Recovered stale in-flight submission after worker restart.")

abbrev pub worker_failure : HaciendaSubmissionResult
worker_failure =
    worker_result retryable_failure technical_retry_pending
      (codes "FISCAL_SUBMISSION_WORKER_FAILURE")
      (codes "Fiscal submission worker failed before provider outcome was confirmed.")

abbrev pub is_token_expired : HaciendaSubmissionResult → Bool
is_token_expired result = elim result.normalized_error_code [
  | none ↦ false
  | some code ↦ eq_text code (codes "HACIENDA_TOKEN_EXPIRED")
]

unfoldable pub schedule_next : HaciendaSubmissionResult → Tables → Tables
unfolding has
schedule_next result t =
    if has (acknowledged ∷ processing ∷ post_outcome_unknown ∷ []) result.next_status
    then publish reconcile_job t
    else if same result.next_status technical_retry_pending
    then publish submit_job t
    else t

abbrev pub is_claimable : Option FiscalSubmission → Bool
unfolding has
is_claimable none = false
is_claimable (some row) = has (queued ∷ technical_retry_pending ∷ []) row.status

abbrev pub claimed : ℕ → FiscalSubmission → FiscalSubmission
claimed now row = record row {
  status = submitting;
  attempt_count = row.attempt_count + 1;
  last_attempt_at = some now;
}

abbrev pub counted : ℕ → FiscalSubmission → FiscalSubmission
counted now row = record row {
  reconciliation_attempt_count = row.reconciliation_attempt_count + 1;
  last_attempt_at = some now;
}

-- `reconciliationAttemptCount: { increment: 1 }`
abbrev pub count_reconciliation : ℕ → Tables → Tables
count_reconciliation now t = record t { submission = on_row (counted now) t.submission }

-- `updateMany` of a claim: the tables if it wrote one row.
unfoldable pub claim_submission : ℕ → Tables → Option Tables
claim_submission now t =
    if is_claimable t.submission
    then some (record t { submission = on_row (claimed now) t.submission })
    else none

-- A step that throws leaves the tables as they are.
abbrev pub require : Bool → Tables → Result Tables Tables
require true t = ok t
require false t = err t

-- An answer of the adapter, after its call is recorded. An adapter that throws (`none`) may do so
-- before its HTTP request is sent, so that the recorded calls bound the requests from above.
abbrev pub answered :
    Option HaciendaSubmissionResult → Tables → Result Tables (HaciendaSubmissionResult × Tables)
answered none t = err t
answered (some result) t = ok (result, t)

module _ (s : Services) (others : ℕ → Tables → Tables) where
  -- `applyProviderResult`, with a wait between its read and its transaction.
  unfoldable pub apply : ℕ → HaciendaSubmissionResult → Tables → Result Tables Tables
  apply k result t = apply_provider_result s.now s.upload t.submission result (others k t)

  unfoldable pub load_connection :
      FiscalSubmission → Tables → Result Tables (Option FiscalSubmission × Tables)
  load_connection row t =
      if t.is_connected then ok (some row, t) else (apply 1 not_connected t >>= λ t₁. ok (none, t₁))

  -- The submission of the context, if it has a connection.
  unfoldable pub load_context : Tables → Result Tables (Option FiscalSubmission × Tables)
  load_context t = elim t.submission [
    | none ↦ ok (none, t)
    | some row ↦ load_connection row (others 0 t)
  ]

  -- A request at Hacienda with an access token.
  unfoldable pub send :
      Bool
      → Option HaciendaSubmissionResult
      → (Tables → Tables)
      → Tables
      → Result Tables (HaciendaSubmissionResult × Tables)
  send token answer request t = require token (others 2 t) >>= λ t₁. answered answer (request t₁)

  -- The second request, if the token has expired.
  unfoldable pub send_again :
      (Tables → Tables)
      → HaciendaSubmissionResult × Tables
      → Result Tables (HaciendaSubmissionResult × Tables)
  send_again request p =
      if is_token_expired p.0 then send s.refreshed_token s.second_answer request p.1 else ok p

  unfoldable pub ask :
      (Tables → Tables) → Tables → Result Tables (HaciendaSubmissionResult × Tables)
  ask request t = send s.token s.answer request t >>= send_again request

  -- `applyProviderResult` and `scheduleNext`
  unfoldable pub settle : HaciendaSubmissionResult → Tables → Result Tables Tables
  settle result t = apply 4 result t >>= λ t₁. ok (schedule_next result (others 5 t₁))

  unfoldable pub ask_and_settle : (Tables → Tables) → Tables → Result Tables Tables
  ask_and_settle request t = ask request t >>= λ p. settle p.0 (others 8 p.1)

  unfoldable pub handle_submit_failure : Tables → Result Tables Tables
  handle_submit_failure t =
      apply 6 worker_failure t >>= λ t₁. ok (schedule_next worker_failure (others 7 t₁))

  -- The statements after the context is loaded.
  unfoldable pub submit_context : Option FiscalSubmission × Tables → Result Tables Tables
  submit_context (none, t) = ok t
  submit_context (some row, t) =
      require s.signed_xml t >>= λ t₁. ask_and_settle (record_event posted) t₁

  -- The `try` block.
  unfoldable pub submit_claimed : Tables → Result Tables Tables
  submit_claimed t = load_context t >>= submit_context

  abbrev pub or_failure : Result Tables Tables → Result Tables Tables
  or_failure (ok t) = ok t
  or_failure (err t) = handle_submit_failure t

  abbrev pub submit_if_claimed : Option Tables → Tables → Result Tables Tables
  submit_if_claimed none t = ok t
  submit_if_claimed (some t₁) t = or_failure (submit_claimed (others 9 t₁))

  unfoldable pub handle_submit_job : Tables → Result Tables Tables
  handle_submit_job t = submit_if_claimed (claim_submission s.now t) t

  unfoldable pub reconcile_context : Option FiscalSubmission × Tables → Result Tables Tables
  reconcile_context (none, t) = ok t
  reconcile_context (some row, t) =
      if is_terminal row.status
      then ok t
      else ask_and_settle (record_event queried) (count_reconciliation s.now (others 10 t))

  unfoldable pub handle_reconcile_job : Tables → Result Tables Tables
  handle_reconcile_job t = load_context t >>= reconcile_context

  abbrev is_due_at : Option ℕ → Bool
  is_due_at none = true
  is_due_at (some at) = leb at s.now

  -- `lastAttemptAt <= now - 5 * 60_000`
  abbrev is_old : Option ℕ → Bool
  is_old none = false
  is_old (some at) = leb (at + 300000) s.now

  -- The row of the tables among those of `enqueueDueWork`'s queries.
  unfoldable pub due : Tables → List FiscalSubmission
  unfolding has
  due t = elim t.submission [
    | none ↦ []
    | some row ↦
        if has
            (queued ∷ technical_retry_pending ∷ acknowledged ∷ processing ∷ post_outcome_unknown
              ∷ [])
            row.status
          && is_due_at row.next_attempt_at
        then row ∷ []
        else []
  ]

  unfoldable pub stale_submitting : Tables → List FiscalSubmission
  stale_submitting t = elim t.submission [
    | none ↦ []
    | some row ↦ if same row.status submitting && is_old row.last_attempt_at then row ∷ [] else []
  ]

  unfoldable pub recovery_job : FiscalSubmission → Job
  unfolding has
  recovery_job row =
      if has (acknowledged ∷ processing ∷ post_outcome_unknown ∷ []) row.status
      then reconcile_job
      else submit_job

  -- One turn of the loop.
  unfoldable pub recover : FiscalSubmission → Tables → Result Tables Tables
  recover row t = (if same row.status submitting then apply 1 stale_recovered t else ok t) >>= λ t₁.
      ok (publish (recovery_job row) t₁)

  unfoldable pub recover_all : List FiscalSubmission → Tables → Result Tables Tables
  recover_all [] t = ok t
  recover_all (row ∷ rows) t = recover row t >>= recover_all rows

  unfoldable pub enqueue_due_work : Tables → Result Tables Tables
  enqueue_due_work t = recover_all (due t ++ stale_submitting (others 0 t)) (others 2 (others 0 t))
