-- ===== src/Submission/State/Terminal.antt =====
-- What applyProviderResult keeps of a submission and its document, whatever row it read first.
use billing_api.Common.{
  ℕ, ◌≡◌, ◌∙◌, ap, ◌≢◌, ◌⊎◌, inl, inr, refl, true, false, Option, none, some, Result, ok, err,
  if◌then◌else◌, Bool-cases, arith,
}
use billing_api.Submission.StateMachine.{
  FiscalSubmissionStatus, accepted, rejected, is_terminal, has, evaluate_transition,
  TransitionResult, TransitionOutcome, applied, not_allowed, ignored_stale_terminal,
}
use billing_api.Submission.Provider.{HaciendaSubmissionResult}
use billing_api.Submission.State.{
  FiscalSubmission, FiscalDocumentStatus, document_accepted, document_rejected, document_superseded,
  Tables, Upload, updated_row, close_document, decides, apply_provider_result, apply_transition,
  commit_result, follow_up, StoredResponse, stored_response, apply_outcome, on_row, note_refusal,
}

-- The tables after a call, whether it throws or not.
abbrev pub tables_of : Result Tables Tables → Tables
tables_of (ok t) = t
tables_of (err t) = t

-- The document says what the submission came to.
abbrev pub Agree : FiscalSubmissionStatus → FiscalDocumentStatus → Type 0
Agree s d =
    (s ≡ accepted → (d ≡ document_accepted) ⊎ (d ≡ document_superseded))
    × (s ≡ rejected → (d ≡ document_rejected) ⊎ (d ≡ document_superseded))
    × (is_terminal s ≡ false → (d ≢ document_accepted) × (d ≢ document_rejected))

-- Tables after a change of a row and its document.
abbrev pub Keeps : FiscalSubmissionStatus → FiscalDocumentStatus → Tables → Type 0
Keeps s d after =
    (row' : FiscalSubmission) × (after.submission ≡ some row')
    × (Agree s d → Agree row'.status after.document)
    × (is_terminal s ≡ true → (row'.status ≡ s) × (after.document ≡ d))

pub Agree-ext :
    (s s' : FiscalSubmissionStatus) (d d' : FiscalDocumentStatus)
    → s' ≡ s
    → d' ≡ d
    → Agree s d
    → Agree s' d'
Agree-ext s s' d d' es ed (a, r, o) = ground arith

Agree-decides :
    (s next : FiscalSubmissionStatus) (d : FiscalDocumentStatus)
    → is_terminal s ≡ false
    → Agree s d
    → Agree next (if decides next then close_document next d else d)
unfolding is_terminal has
Agree-decides s next d opened (a, r, o) = elim next [
  | accepted ↦ ground arith
  | rejected ↦ ground arith
  | _ ↦ ground arith
]

-- A change that leaves the status and the document alone.
Keeps-same :
    (s : FiscalSubmissionStatus) (d : FiscalDocumentStatus) (after : Tables)
    (row' : FiscalSubmission)
    → after.submission ≡ some row'
    → row'.status ≡ s
    → after.document ≡ d
    → Keeps s d after
Keeps-same s d after row' e es ed =
    (row', e, λ h. Agree-ext s row'.status d after.document es ed h, λ h. (es, ed))

commit_result-Keeps :
    (now : ℕ) (seen : FiscalSubmission) (result : HaciendaSubmissionResult)
    (stored : Option StoredResponse) (t : Tables) (row : FiscalSubmission)
    → t.submission ≡ some row
    → Keeps row.status t.document (commit_result now seen result stored t)
unfolding commit_result
commit_result-Keeps now seen result stored t row e = elim (Bool-cases (is_terminal row.status)) [
  | inl closed ↦
      Keeps-same row.status t.document (commit_result now seen result stored t) row (ground arith)
        refl (ground arith)
  | inr opened ↦ (
    updated_row now seen result stored row,
    ground arith,
    λ h.
        Agree-ext result.next_status result.next_status
          (if decides result.next_status
            then close_document result.next_status t.document
            else t.document)
          (commit_result now seen result stored t).document refl (ground arith)
          (Agree-decides row.status result.next_status t.document opened h),
    ground arith,
  )
]

-- Tables with the same row and document keep the same.
Keeps-ext :
    (s : FiscalSubmissionStatus) (d : FiscalDocumentStatus) (after other : Tables)
    → other.submission ≡ after.submission
    → other.document ≡ after.document
    → Keeps s d after
    → Keeps s d other
Keeps-ext s d after other es ed (row', e, agree, keep) = (
  row',
  es ∙ e,
  λ h. Agree-ext row'.status row'.status after.document other.document refl ed (agree h),
  λ h. ((keep h).0, ed ∙ (keep h).1),
)

follow_up-row :
    (result : HaciendaSubmissionResult) (stored : Option StoredResponse) (t : Tables)
    → ((follow_up result stored t).submission ≡ t.submission)
      × ((follow_up result stored t).document ≡ t.document)
unfolding follow_up
follow_up-row result stored t = ground arith

-- A transition throws with the tables as they were, or it has the row and the document of its
-- transaction.
apply_transition-tables :
    (now : ℕ) (upload : Upload) (seen : FiscalSubmission) (result : HaciendaSubmissionResult)
    (t : Tables)
    → let after = tables_of (apply_transition now upload seen result t) in
      let stored = stored_response now upload result.response_artifact in
      let committed = commit_result now seen result stored t in
      (after ≡ t)
      ⊎ ((after.submission ≡ committed.submission) × (after.document ≡ committed.document))
unfolding apply_transition
apply_transition-tables now upload seen result t =
    let stored = stored_response now upload result.response_artifact in
    let (es, ed) = follow_up-row result stored (commit_result now seen result stored t) in
    ground arith

apply_transition-Keeps :
    (now : ℕ) (upload : Upload) (seen : FiscalSubmission) (result : HaciendaSubmissionResult)
    (t : Tables) (row : FiscalSubmission)
    → t.submission ≡ some row
    → Keeps row.status t.document (tables_of (apply_transition now upload seen result t))
apply_transition-Keeps now upload seen result t row e =
    elim (apply_transition-tables now upload seen result t) [
      | inl same_tables ↦
          Keeps-same row.status t.document (tables_of (apply_transition now upload seen result t))
            row (ap (λ x. x.submission) same_tables ∙ e) refl (ap (λ x. x.document) same_tables)
      | inr (es, ed) ↦
          let stored = stored_response now upload result.response_artifact in
          Keeps-ext row.status t.document (commit_result now seen result stored t)
            (tables_of (apply_transition now upload seen result t)) es ed
            (commit_result-Keeps now seen result stored t row e)
    ]

apply_outcome-Keeps :
    (now : ℕ) (upload : Upload) (seen : FiscalSubmission) (result : HaciendaSubmissionResult)
    (transition : TransitionResult) (outcome : TransitionOutcome) (t : Tables)
    (row : FiscalSubmission)
    → t.submission ≡ some row
    → Keeps row.status t.document
        (tables_of (apply_outcome now upload seen result transition outcome t))
apply_outcome-Keeps now upload seen result transition ignored_stale_terminal t row e =
    Keeps-same row.status t.document t row e refl refl
apply_outcome-Keeps now upload seen result transition not_allowed t row e =
    Keeps-same row.status t.document
      (record t { submission = on_row (note_refusal transition result) t.submission })
      (note_refusal transition result row) (ground arith) refl refl
apply_outcome-Keeps now upload seen result transition applied t row e =
    apply_transition-Keeps now upload seen result t row e

-- Whatever row applyProviderResult read first, its submission and document agree after it if they
-- did before, and a submission in a terminal status stays in it, with its document: also if another
-- worker has decided it since the read, and if the call throws.
pub apply_provider_result-terminal :
    (now : ℕ) (upload : Upload) (seen : Option FiscalSubmission) (result : HaciendaSubmissionResult)
    (t : Tables) (row : FiscalSubmission)
    → t.submission ≡ some row
    → Keeps row.status t.document (tables_of (apply_provider_result now upload seen result t))
unfolding apply_provider_result
apply_provider_result-terminal now upload none result t row e =
    Keeps-same row.status t.document t row e refl refl
apply_provider_result-terminal now upload (some seen) result t row e =
    let transition = evaluate_transition seen.status result.next_status in
    apply_outcome-Keeps now upload seen result transition transition.outcome t row e
