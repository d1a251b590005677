-- ===== src/Submission/Runs.antt =====
-- Runs of the submission of a document: the jobs of fiscal-submission-worker.service.ts, its
-- recovery, and the requests of application/submission, in every order. Between two accesses of a
-- job there may be a whole run of the other processes, with jobs that again are interrupted.
mod Tests
use billing_api.Common.{ℕ, ◌*◌, ◌≤◌, ◌≡◌, Bool, true, [], Option, none, Text, arith}
use billing_api.Submission.StateMachine.{is_terminal}
use billing_api.Submission.State.{Tables}
use billing_api.Submission.State.Terminal.{Agree, tables_of}
use billing_api.Submission.Worker.{
  Services, handle_submit_job, handle_reconcile_job, enqueue_due_work,
}
use billing_api.Submission.Worker.Steps.{Later, Later-refl, Later-trans, status_of, attempts, posts}
use billing_api.Submission.Worker.Safety.{
  handle_submit_job-Later, handle_reconcile_job-Later, enqueue_due_work-Later,
}
use billing_api.Submission.Requests.{
  SubmissionRequest, submit_fiscal_document, request_reconciliation, handle_hacienda_callback,
}
use billing_api.Submission.Requests.Safety.{
  tables_after, second, quiet, submit_fiscal_document-Later, request_reconciliation-Later,
  handle_hacienda_callback-Later,
}

-- The other processes between the accesses of one.
abbrev Others : Type 0
Others = ℕ → Tables → Tables

-- A request of a submission is not interrupted here.
pub data Runs : Tables → Tables → Type 0 where
  ended : {t : Tables} → Runs t t
  submits :
      {t t' : Tables} (s : Services) (others : Others)
      → ((k : ℕ) (u : Tables) → Runs u (others k u))
      → Runs (tables_of (handle_submit_job s others t)) t'
      → Runs t t'
  reconciles :
      {t t' : Tables} (s : Services) (others : Others)
      → ((k : ℕ) (u : Tables) → Runs u (others k u))
      → Runs (tables_of (handle_reconcile_job s others t)) t'
      → Runs t t'
  recovers :
      {t t' : Tables} (s : Services) (others : Others)
      → ((k : ℕ) (u : Tables) → Runs u (others k u))
      → Runs (tables_of (enqueue_due_work s others t)) t'
      → Runs t t'
  requests :
      {t t' : Tables} (now : ℕ) (i : SubmissionRequest)
      → Runs (tables_after second t (submit_fiscal_document now quiet i t)) t'
      → Runs t t'
  asks_again :
      {t t' : Tables} (now : ℕ) (others : Others) (i : SubmissionRequest)
      → ((k : ℕ) (u : Tables) → Runs u (others k u))
      → Runs (tables_after second t (request_reconciliation now others i t)) t'
      → Runs t t'
  calls_back :
      {t t' : Tables} (now : ℕ) (others : Others) (clave : Option Text) (is_known : Bool)
      (estado : Option Text)
      → ((k : ℕ) (u : Tables) → Runs u (others k u))
      → Runs
          (tables_after second t (handle_hacienda_callback now others clave is_known estado t))
          t'
      → Runs t t'

Runs-Later : {t t' : Tables} → Runs t t' → Later t t'
Runs-Later {t} ended = Later-refl t
Runs-Later {t} {t'} (submits s others runs rest) =
    Later-trans t (tables_of (handle_submit_job s others t)) t'
      (handle_submit_job-Later s others (λ k u. Runs-Later (runs k u)) t) (Runs-Later rest)
Runs-Later {t} {t'} (reconciles s others runs rest) =
    Later-trans t (tables_of (handle_reconcile_job s others t)) t'
      (handle_reconcile_job-Later s others (λ k u. Runs-Later (runs k u)) t) (Runs-Later rest)
Runs-Later {t} {t'} (recovers s others runs rest) =
    Later-trans t (tables_of (enqueue_due_work s others t)) t'
      (enqueue_due_work-Later s others (λ k u. Runs-Later (runs k u)) t) (Runs-Later rest)
Runs-Later {t} {t'} (requests now i rest) =
    Later-trans t (tables_after second t (submit_fiscal_document now quiet i t)) t'
      (submit_fiscal_document-Later now i t) (Runs-Later rest)
Runs-Later {t} {t'} (asks_again now others i runs rest) =
    Later-trans t (tables_after second t (request_reconciliation now others i t)) t'
      (request_reconciliation-Later now others (λ k u. Runs-Later (runs k u)) i t) (Runs-Later rest)
Runs-Later {t} {t'} (calls_back now others clave is_known estado runs rest) =
    Later-trans t
      (tables_after second t (handle_hacienda_callback now others clave is_known estado t)) t'
      (handle_hacienda_callback-Later now others (λ k u. Runs-Later (runs k u)) clave is_known
        estado t)
      (Runs-Later rest)

-- In every run of the jobs, the recovery and the requests, a submission that is decided keeps its
-- status and its document's, and a submission that agrees with its document agrees with it at the end.
pub Runs-Settled :
    {t t' : Tables}
    → Runs t t'
    → (Agree (status_of t.submission) t.document → Agree (status_of t'.submission) t'.document)
      × (is_terminal (status_of t.submission) ≡ true
          → (status_of t'.submission ≡ status_of t.submission) × (t'.document ≡ t.document))
Runs-Settled r = (Runs-Later r).0

-- In every run that starts with no submission and nothing sent, the POSTs are at most twice the
-- attempts that the submission has counted.
pub Runs-posts :
    {t t' : Tables}
    → Runs t t'
    → t.submission ≡ none
    → t.events ≡ []
    → posts t'.events ≤ 2 * attempts t'.submission
Runs-posts {t} {t'} r missing empty = let (_, le) = Runs-Later r in ground arith
