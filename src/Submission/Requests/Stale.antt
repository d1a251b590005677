-- ===== src/Submission/Requests/Stale.antt =====
-- What a request of a submission does if the submission is decided while it runs.
use billing_api.Common.{ℕ, zero, suc, ◌≡◌, ◌⊎◌, inl, inr, true, ◌∷◌, some, Option-cases, ok, arith}
use billing_api.Submission.StateMachine.{
  requested, queued, technical_retry_pending, accepted, is_terminal, has,
}
use billing_api.Submission.State.{
  FiscalSubmission, ready_to_submit, document_accepted, submit_job, Tables,
}
use billing_api.Submission.State.Terminal.{Agree}
use billing_api.Submission.Requests
use billing_api.Submission.Requests.Safety.{second}
use billing_api.Submission.Worker
use billing_api.Submission.Worker.{claim_submission}
use billing_api.Submission.Worker.Steps.{status_of}

-- Other processes that act between the reads of a request and its first write, and at no other point.
abbrev pub before_writes : (Tables → Tables) → ℕ → Tables → Tables
before_writes f zero t = f t
before_writes f (suc k) t = t

-- A submission that may be sent.
abbrev pub IsOpen : FiscalSubmission → Type 0
IsOpen seen =
    (seen.status ≡ requested) ⊎ ((seen.status ≡ queued) ⊎ (seen.status ≡ technical_retry_pending))

request_job-queues :
    (now : ℕ) (others : Tables → Tables) (seen row : FiscalSubmission) (t : Tables)
    → IsOpen seen
    → t.submission ≡ some row
    → t.document ≡ document_accepted
    → let after = second (Requests.request_job now (before_writes others) seen t) in
      (status_of after.submission ≡ queued)
      × (after.document ≡ document_accepted)
      × (after.jobs ≡ submit_job ∷ t.jobs)
unfolding Requests.request_job Requests.mark_queued_when_safe_to_submit
    Requests.job_name_for_submission_status has
request_job-queues now others seen row t sent found closed =
    (ground arith, ground arith, ground arith)

-- A queued submission can be claimed.
queued-claimed :
    (now : ℕ) (t : Tables)
    → status_of t.submission ≡ queued
    → (claimed : Tables) × (claim_submission now t ≡ some claimed)
unfolding claim_submission has
queued-claimed now t e = elim (Option-cases t.submission) [
  | inl missing ↦ absurd (ground arith)
  | inr (row, found) ↦ (record t { submission = some (Worker.claimed now row) }, ground arith)
]

-- The checks of a request that may submit.
abbrev pub MaySubmit : Requests.SubmissionRequest → Tables → Type 0
MaySubmit i t =
    (Requests.authorize i ≡ ok tt)
    × (t.is_connected ≡ true)
    × (i.is_found ≡ true)
    × (i.is_signed ≡ true)
    × (t.document ≡ ready_to_submit)

submit_fiscal_document-requests :
    (now : ℕ) (others : Tables → Tables) (i : Requests.SubmissionRequest) (t : Tables)
    (seen : FiscalSubmission)
    → MaySubmit i t
    → t.submission ≡ some seen
    → IsOpen seen
    → Requests.submit_fiscal_document now (before_writes others) i t
      ≡ ok (Requests.request_job now (before_writes others) seen (others t))
unfolding Requests.submit_fiscal_document Requests.submit_document is_terminal has
submit_fiscal_document-requests now others i t seen (may, connected, found, signed, ready) read
      sent =
    ground arith

-- A request that may submit, and that read a submission which is requested, queued or to be sent again,
-- succeeds also if Hacienda's acceptance is stored between its reads and its first write: it puts the
-- accepted submission back to `queued`, publishes the job that sends it, which may claim it, and leaves
-- the document accepted, so that the two do not agree.
pub submit_fiscal_document-reopens :
    (now later : ℕ) (others : Tables → Tables) (i : Requests.SubmissionRequest) (t : Tables)
    (seen row : FiscalSubmission)
    → MaySubmit i t
    → t.submission ≡ some seen
    → IsOpen seen
    → (others t).submission ≡ some row
    → row.status ≡ accepted
    → (others t).document ≡ document_accepted
    → (response : Requests.SubmissionResponse) × (after : Tables) × (Requests.submit_fiscal_document
          now
          (before_writes others)
          i
          t
        ≡ ok (response, after))
      × (status_of after.submission ≡ queued)
      × (after.jobs ≡ submit_job ∷ (others t).jobs)
      × ((claimed : Tables) × (claim_submission later after ≡ some claimed))
      × (Agree (status_of (others t).submission) (others t).document)
      × ¬ Agree (status_of after.submission) after.document
unfolding claim_submission is_terminal has
submit_fiscal_document-reopens now later others i t seen row may read sent met done closed =
    let p = Requests.request_job now (before_writes others) seen (others t) in
    let (q, d, j) = request_job-queues now others seen row (others t) sent met closed in
    (
      p.0,
      p.1,
      submit_fiscal_document-requests now others i t seen may read sent,
      q,
      j,
      queued-claimed later p.1 q,
      ground arith,
      λ (a, r, o). ground arith,
    )
