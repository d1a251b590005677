-- ===== src/Submission/Requests/Safety.antt =====
-- What the requests keep of a submission and its document.
use billing_api.Common.{
  ℕ, ◌≡◌, ◌∙◌, sym, ◌⊎◌, inl, inr, refl, Bool, true, false, not, ◌||◌, Option, none, some, Text,
  Result, ok, err, reject_if, ◌>>=◌, if◌then◌else◌, Bool-cases, is_digits, arith,
}
use billing_api.FiscalDocument.{ServiceError, conflict, bad_request, not_found}
use billing_api.Submission.StateMachine.{queued, accepted, rejected, is_terminal, has, same}
use billing_api.Submission.State.{
  FiscalSubmission, Job, reconcile_job, requested_event, Tables, publish, record_event, on_row,
}
use billing_api.Submission.Requests
use billing_api.Submission.Worker.Steps.{
  Later, Later-refl, Later-trans, Within-same, Settled-open, status_of, attempts,
}

-- The tables after a request; one that is refused has not written.
abbrev pub tables_after : {A : Type 0} → (A → Tables) → Tables → Result ServiceError A → Tables
tables_after get t (err e) = t
tables_after get t (ok a) = get a

abbrev pub second : {A : Type 0} → A × Tables → Tables
second p = p.1

-- A request that stops, or goes on.
pub >>=-request :
    {A B : Type 0} (get : B → Tables) (t : Tables) (first : Result ServiceError A)
    (rest : A → Result ServiceError B)
    → ((x : A) → Later t (tables_after get t (rest x)))
    → Later t (tables_after get t (first >>= rest))
>>=-request get t (err e) rest ws = Later-refl t
>>=-request get t (ok x) rest ws = ws x

-- An update that keeps the status and the attempts.
touched-Later :
    (f : FiscalSubmission → FiscalSubmission) (t : Tables)
    → ((row : FiscalSubmission) → (f row).status ≡ row.status)
    → ((row : FiscalSubmission) → (f row).attempt_count ≡ row.attempt_count)
    → Later t (record t { submission = on_row f t.submission })
touched-Later f t es ea =
    Within-same t (record t { submission = on_row f t.submission }) (status t.submission)
      (count t.submission) refl refl
  where
    status : (o : Option FiscalSubmission) → status_of (on_row f o) ≡ status_of o
    status none = refl
    status (some row) = es row

    count : (o : Option FiscalSubmission) → attempts (on_row f o) ≡ attempts o
    count none = refl
    count (some row) = ea row

create_or_load-Later :
    (now : ℕ) (row : Option FiscalSubmission) (t : Tables)
    → row ≡ t.submission
    → Later t (second (Requests.row_to_submit now row t))
unfolding Requests.create_or_load_submission
create_or_load-Later now (some row) t e = Later-refl t
create_or_load-Later now none t e =
    Within-same t (second (Requests.create_or_load_submission now t)) (ground arith) (ground arith)
      (ground arith) (ground arith)

-- A row that is read as it stands is queued again only if it is not decided.
mark_queued-Later :
    (now : ℕ) (seen : FiscalSubmission) (t : Tables)
    → t.submission ≡ some seen
    → is_terminal seen.status ≡ false
    → Later t (Requests.mark_queued_when_safe_to_submit now seen t)
unfolding Requests.mark_queued_when_safe_to_submit is_terminal has
mark_queued-Later now seen t e opened =
    elim (Bool-cases
      (Requests.is_submit_job (Requests.job_name_for_submission_status seen.status))) [
        | inl submits ↦ (
          Settled-open t (Requests.mark_queued_when_safe_to_submit now seen t) seen.status queued
              (ground arith) (ground arith) opened refl (ground arith),
          ground arith,
        )
        | inr other ↦
            Within-same t (Requests.mark_queued_when_safe_to_submit now seen t) (ground arith)
              (ground arith) (ground arith) (ground arith)
      ]

if-request :
    (t : Tables) (test : Bool) (x y : Bool × Tables)
    → Later t x.1
    → Later t y.1
    → Later t (second (if test then x else y))
if-request t true x y wx wy = wx
if-request t false x y wx wy = wy

module _ (now : ℕ) (others : ℕ → Tables → Tables)
    (later : (k : ℕ) (t : Tables) → Later t (others k t)) where
  request_job-Later :
      (seen : FiscalSubmission) (t : Tables)
      → t.submission ≡ some seen
      → is_terminal seen.status ≡ false
      → Later t (second (Requests.request_job now others seen t))
  unfolding Requests.request_job
  request_job-Later seen t e opened =
      let job = Requests.job_name_for_submission_status seen.status in
      let t₁ = Requests.mark_queued_when_safe_to_submit now seen t in
      let t₂ = others 2 t₁ in
      let last = record_event requested_event (Requests.publish_job job t₂) in
      Later-trans t t₁ last (mark_queued-Later now seen t e opened) (
        Later-trans t₁ t₂ last (later 2 t₁)
          (Within-same t₂ last (ground arith) (ground arith) (ground arith) (ground arith)))

  -- An update of the row that was read, and the job for it.
  touched_and_published-Later :
      (f : FiscalSubmission → FiscalSubmission) (job : Job) (t : Tables)
      → ((row : FiscalSubmission) → (f row).status ≡ row.status)
      → ((row : FiscalSubmission) → (f row).attempt_count ≡ row.attempt_count)
      → Later t (
          publish job
            (others 1 (record (others 0 t) { submission = on_row f (others 0 t).submission })))
  touched_and_published-Later f job t es ea =
      let t₁ = others 0 t in
      let t₂ : Tables = record t₁ { submission = on_row f t₁.submission } in
      let t₃ = others 1 t₂ in
      Later-trans t t₁ (publish job t₃) (later 0 t) (
        Later-trans t₁ t₂ (publish job t₃) (touched-Later f t₁ es ea) (
          Later-trans t₂ t₃ (publish job t₃) (later 1 t₂)
            (Within-same t₃ (publish job t₃) refl refl refl refl)))

  pub request_reconciliation-Later :
      (i : Requests.SubmissionRequest) (t : Tables)
      → Later t (tables_after second t (Requests.request_reconciliation now others i t))
  unfolding Requests.request_reconciliation
  request_reconciliation-Later i t = >>=-request second t (Requests.authorize i) _ (λ u.
      >>=-request second t (Requests.find_submission i t) _ (λ row.
        >>=-request second t
          (reject_if (is_terminal row.status) (conflict "FISCAL_SUBMISSION_ALREADY_TERMINAL")) _
          (λ v.
            touched_and_published-Later (Requests.cleared now) reconcile_job t (λ r. refl)
              (λ r. refl))))

  callback_row-Later :
      (estado : Option Text) (seen : Option FiscalSubmission) (t : Tables)
      → Later t (second (Requests.callback_row now others estado seen t))
  unfolding Requests.callback_row
  callback_row-Later estado none t = Later-refl t
  callback_row-Later estado (some seen) t =
      if-request t (same seen.status accepted || same seen.status rejected) (false, t) _
        (Later-refl t)
        (touched_and_published-Later (Requests.called_back now estado seen) reconcile_job t
          (λ r. refl) (λ r. refl))

  pub handle_hacienda_callback-Later :
      (clave : Option Text) (is_known : Bool) (estado : Option Text) (t : Tables)
      → Later t (
          tables_after second t
            (Requests.handle_hacienda_callback now others clave is_known estado t))
  unfolding Requests.handle_hacienda_callback
  handle_hacienda_callback-Later none is_known estado t = Later-refl t
  handle_hacienda_callback-Later (some clave) is_known estado t =
      >>=-request second t
        (reject_if (not (is_digits 50 clave)) (bad_request "HACIENDA_CALLBACK_INVALID_CLAVE")) _
        (λ u. callback_row-Later estado (if is_known then t.submission else none) t)

abbrev pub quiet : ℕ → Tables → Tables
quiet k t = t

-- The row to submit is the row of the tables, and it is decided if the one that was read is.
row_to_submit-found :
    (now : ℕ) (o : Option FiscalSubmission) (t : Tables)
    → o ≡ t.submission
    → let p = Requests.row_to_submit now o t in
      (p.1.submission ≡ some p.0) × (is_terminal p.0.status ≡ Requests.is_closed_row o)
unfolding Requests.create_or_load_submission is_terminal has
row_to_submit-found now (some row) t e = (sym e, refl)
row_to_submit-found now none t e = ground arith

Later-as : (t t' u : Tables) → u ≡ t' → Later t t' → Later t u
Later-as t t' u e w = rw e w

submit_document-tables :
    (now : ℕ) (i : Requests.SubmissionRequest) (t : Tables)
    → let after = tables_after second t (Requests.submit_document now quiet i t) in
      let p = Requests.row_to_submit now t.submission t in
      (after ≡ t)
      ⊎ ((after ≡ second (Requests.request_job now quiet p.0 p.1))
          × (Requests.is_closed_row t.submission ≡ false))
unfolding Requests.submit_document
submit_document-tables now i t = elim (Bool-cases (Requests.is_closed_row t.submission)) [
  | inl closed ↦ inl (ground arith)
  | inr opened ↦ ground arith
]

submit_document-Later :
    (now : ℕ) (i : Requests.SubmissionRequest) (t : Tables)
    → Later t (tables_after second t (Requests.submit_document now quiet i t))
submit_document-Later now i t = elim (submit_document-tables now i t) [
  | inl same_tables ↦
      Later-as t t (tables_after second t (Requests.submit_document now quiet i t)) same_tables
        (Later-refl t)
  | inr (requests, opened) ↦
      let p = Requests.row_to_submit now t.submission t in
      let last = second (Requests.request_job now quiet p.0 p.1) in
      let (found, closed) = row_to_submit-found now t.submission t refl in
      Later-as t last (tables_after second t (Requests.submit_document now quiet i t)) requests (
        Later-trans t p.1 last (create_or_load-Later now t.submission t refl)
          (request_job-Later now quiet (λ k u. Later-refl u) p.0 p.1 found (closed ∙ opened)))
]

pub submit_fiscal_document-Later :
    (now : ℕ) (i : Requests.SubmissionRequest) (t : Tables)
    → Later t (tables_after second t (Requests.submit_fiscal_document now quiet i t))
unfolding Requests.submit_fiscal_document
submit_fiscal_document-Later now i t = >>=-request second t (Requests.authorize i) _ (λ u.
    >>=-request second t
      (reject_if (not t.is_connected) (conflict "HACIENDA_CONNECTION_NOT_CONNECTED")) _
      (λ v.
        >>=-request second t (reject_if (not i.is_found) (not_found "FISCAL_DOCUMENT_NOT_FOUND")) _
          (λ w. submit_document-Later now i t)))
