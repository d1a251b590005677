-- ===== src/Submission/Runs/Tests.antt =====
-- A document that is submitted, acknowledged and accepted, and the witnesses of the theorems on jobs
-- and requests.
use billing_api.Common.{
  includes, eq_text, ℕ, ◌*◌, ◌≤◌, ◌≡◌, inl, inr, refl, arith, true, false, [], ◌∷◌, Option, none,
  some, Text, codes, ok,
}
use billing_api.FiscalDocument.{invoice}
use billing_api.Submission.StateMachine.{
  FiscalSubmissionStatus, queued, acknowledged, processing, accepted, is_terminal, has,
}
use billing_api.Submission.Provider.{
  failed, HaciendaSubmissionResult, acceptance, acknowledgement, bare_result, query_status_result,
  submit_result, classify_recepcion_status,
}
use billing_api.Submission.Provider.Answers.{
  is_post_status, submit_result-classify_recepcion_status, answer, action_of,
}
use billing_api.Submission.State.{
  submit_job, ready_to_submit, document_accepted, Tables, Upload, apply_provider_result,
}
use billing_api.Submission.State.Terminal.{Agree, Keeps, tables_of, apply_provider_result-terminal}
use billing_api.Submission.Worker.{
  Services, handle_submit_job, handle_reconcile_job, is_claimable, claim_submission,
}
use billing_api.Submission.Worker.Steps.{status_of, attempts, posts}
use billing_api.Submission.Worker.Progress.{Done, handle_submit_job-Done}
use billing_api.Submission.Worker.Resend.{handle_reconcile_job-resends}
use billing_api.Submission.Requests.{
  SubmissionRequest, SubmissionResponse, submit_fiscal_document, created,
}
use billing_api.Submission.Requests.Safety.{tables_after, second, quiet}
use billing_api.Submission.Requests.Stale.{before_writes, submit_fiscal_document-reopens}
use billing_api.Submission.Runs.{
  Runs, ended, submits, reconciles, requests, Runs-Settled, Runs-posts,
}

abbrev invoice_request : SubmissionRequest
invoice_request = record {
  document_type = invoice;
  scopes = codes "invoices:write" ∷ [];
  is_linked = true;
  is_found = true;
  is_signed = true;
}

abbrev upload : Upload
upload = record { fails = false; storage_key = codes "hacienda-response.xml"; sha256 = codes "00" }

abbrev services : HaciendaSubmissionResult → Services
services result = record {
  now = 90000;
  upload = upload;
  signed_xml = true;
  token = true;
  refreshed_token = true;
  answer = some result;
  second_answer = none;
}

abbrev acknowledging : Services
acknowledging = services (bare_result acknowledgement acknowledged)

abbrev accepting : Services
accepting = services (bare_result acceptance accepted)

abbrev no_number : Text → Option ℕ
no_number t = none

abbrev plain : Text → Text
plain t = t

abbrev unavailable : Services
unavailable = services (query_status_result no_number plain (failed (some 503) []))

abbrev signed_document : Tables
signed_document = record {
  submission = none;
  document = ready_to_submit;
  is_connected = true;
  jobs = [];
  events = [];
}

abbrev with_status : FiscalSubmissionStatus → Tables
with_status status = record signed_document {
  submission = some (record (created 10) { status = status });
}

abbrev requested_document : Tables
requested_document =
    tables_after second signed_document
      (submit_fiscal_document 10 quiet invoice_request signed_document)

-- While the job waits, the submission is reconciled.
abbrev reconciled_meanwhile : ℕ → Tables → Tables
reconciled_meanwhile k t = tables_of (handle_reconcile_job accepting quiet t)

meanwhile : (k : ℕ) (t : Tables) → Runs t (reconciled_meanwhile k t)
meanwhile k t = reconciles accepting quiet (λ i u. ended) ended

abbrev submitted_document : Tables
submitted_document =
    tables_of (handle_submit_job acknowledging reconciled_meanwhile requested_document)

submitted_run : Runs signed_document submitted_document
submitted_run =
    requests 10 invoice_request (submits acknowledging reconciled_meanwhile meanwhile ended)

Runs-posts_example : posts submitted_document.events ≤ 2 * attempts submitted_document.submission
Runs-posts_example = Runs-posts submitted_run refl refl

Runs-Settled_example :
    (Agree (status_of signed_document.submission) signed_document.document
      → Agree (status_of submitted_document.submission) submitted_document.document)
    × (is_terminal (status_of signed_document.submission) ≡ true
        → (status_of submitted_document.submission ≡ status_of signed_document.submission)
          × (submitted_document.document ≡ signed_document.document))
Runs-Settled_example = Runs-Settled submitted_run

answers_of :
    (r : HaciendaSubmissionResult)
    → acknowledging.answer ≡ some r
    → is_post_status r.next_status ≡ true
answers_of r e = ground arith

no_answer :
    (r : HaciendaSubmissionResult)
    → acknowledging.second_answer ≡ some r
    → is_post_status r.next_status ≡ true
no_answer r e = cc

handle_submit_job-Done_example : Done (handle_submit_job acknowledging quiet (with_status queued))
unfolding has
handle_submit_job-Done_example =
    handle_submit_job-Done acknowledging answers_of no_answer (with_status queued) refl

apply_provider_result-terminal_example : Keeps accepted document_accepted (
    tables_of (
      apply_provider_result 20 upload
        (with_status processing).submission
        (bare_result acknowledgement processing)
        (record (with_status accepted) { document = document_accepted })))
apply_provider_result-terminal_example =
    apply_provider_result-terminal 20 upload (with_status processing).submission
      (bare_result acknowledgement processing)
      (record (with_status accepted) { document = document_accepted })
      (record (created 10) { status = accepted }) refl

-- The acceptance of the submission is stored.
abbrev accepts_meanwhile : Tables → Tables
accepts_meanwhile t = record (with_status accepted) { document = document_accepted }

submit_fiscal_document-reopens_example :
    (response : SubmissionResponse) × (after : Tables) × (submit_fiscal_document 10
        (before_writes accepts_meanwhile)
        invoice_request
        (with_status queued)
      ≡ ok (response, after))
    × (status_of after.submission ≡ queued)
    × (after.jobs ≡ submit_job ∷ [])
    × ((claimed : Tables) × (claim_submission 20 after ≡ some claimed))
    × (Agree accepted document_accepted)
    × ¬ Agree (status_of after.submission) after.document
unfolding includes eq_text
submit_fiscal_document-reopens_example =
    submit_fiscal_document-reopens 10 20 accepts_meanwhile invoice_request (with_status queued)
      (record (created 10) { status = queued }) (record (created 10) { status = accepted })
      (refl, refl, refl, refl, refl) refl (inr (inl refl)) refl refl refl

handle_reconcile_job-resends_example :
    (t' : Tables) × (handle_reconcile_job unavailable quiet (with_status acknowledged) ≡ ok t')
    × (is_claimable t'.submission ≡ true)
    × (t'.jobs ≡ submit_job ∷ [])
handle_reconcile_job-resends_example =
    handle_reconcile_job-resends no_number plain (some 503) [] unavailable
      (with_status acknowledged) (record (created 10) { status = acknowledged }) refl refl refl refl
      refl (inl refl)

submit_result-classify_recepcion_status_example :
    (
      (submit_result no_number [] (answer 202 [])).kind,
      (submit_result no_number [] (answer 202 [])).next_status,
    )
    ≡ action_of (classify_recepcion_status 202).billing_action
submit_result-classify_recepcion_status_example =
    submit_result-classify_recepcion_status no_number [] 202 []
