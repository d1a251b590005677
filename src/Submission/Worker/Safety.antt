-- ===== src/Submission/Worker/Safety.antt =====
-- Each job of the worker keeps a decided submission and its document and sends at most two POSTs for
-- an attempt that it counts, if what the other processes do between its accesses does too.
use billing_api.Common.{
  ℕ, ◌+◌, ◌≡◌, inl, inr, refl, Bool, true, false, Option, none, some, List, [], ◌∷◌, ◌++◌, Result,
  ok, err, ◌>>=◌, if◌then◌else◌, Bool-cases, Option-cases, arith,
}
use billing_api.Submission.StateMachine.{submitting, is_terminal, has, same}
use billing_api.Submission.Provider.{HaciendaSubmissionResult}
use billing_api.Submission.State.{FiscalSubmission, posted, queried, Tables, publish, record_event}
use billing_api.Submission.State.Terminal.{tables_of}
use billing_api.Submission.Worker
use billing_api.Submission.Worker.Steps.{
  Later, Within, Within-same, Within-weaken, Within-trans, Later-refl, Later-trans, Later-Within,
  >>=-Later, left, >>=-Within, if-Within, Settled-open, apply_provider_result-Later,
}

abbrev whole : Tables → Tables
whole t = t

abbrev rest_of : {A : Type 0} → A × Tables → Tables
rest_of p = p.1

schedule_next-Later :
    (result : HaciendaSubmissionResult) (t : Tables) → Later t (Worker.schedule_next result t)
unfolding Worker.schedule_next
schedule_next-Later result t =
    Within-same t (Worker.schedule_next result t) (ground arith) (ground arith) (ground arith)
      (ground arith)

-- A claim counts the attempt that allows two POSTs.
claim_submission-Within :
    (now : ℕ) (t t' : Tables) → Worker.claim_submission now t ≡ some t' → Within 0 2 t t'
unfolding Worker.claim_submission is_terminal has
claim_submission-Within now t t' e = elim (Option-cases t.submission) [
  | inl missing ↦ absurd (ground arith)
  | inr (row, found) ↦ elim (Bool-cases (Worker.is_claimable (some row))) [
    | inr refused ↦ absurd (ground arith)
    | inl open_row ↦ (
      Settled-open t t' row.status (Worker.claimed now row).status (ground arith) (ground arith)
          (ground arith) refl (ground arith),
      ground arith,
    )
  ]
]

counted-Later : (now : ℕ) (t : Tables) → Later t (Worker.count_reconciliation now t)
counted-Later now t =
    Within-same t (Worker.count_reconciliation now t) (ground arith) (ground arith) refl refl

require-Later : (b : Bool) (t : Tables) → Later t (left whole (Worker.require b t))
require-Later true t = Later-refl t
require-Later false t = Later-refl t

posted-Within : (t : Tables) → Within 1 0 t (record_event posted t)
posted-Within t = ((λ h. h, λ h. (refl, refl)), omega arith)

module _ (s : Worker.Services) (others : ℕ → Tables → Tables)
    (later : (k : ℕ) (t : Tables) → Later t (others k t)) where
  apply-Later :
      (k : ℕ) (result : HaciendaSubmissionResult) (t : Tables)
      → Later t (tables_of (Worker.apply s others k result t))
  unfolding Worker.apply
  apply-Later k result t =
      Later-trans t (others k t) (tables_of (Worker.apply s others k result t)) (later k t)
        (apply_provider_result-Later s.now s.upload t.submission result (others k t))

  settle-Later :
      (result : HaciendaSubmissionResult) (t : Tables)
      → Later t (left whole (Worker.settle s others result t))
  unfolding Worker.settle
  settle-Later result t =
      >>=-Later 0 t whole whole (Worker.apply s others 4 result t)
        (λ t₁. ok (Worker.schedule_next result (others 5 t₁))) (apply-Later 4 result t)
        (λ t₁.
          Later-trans t₁ (others 5 t₁) (Worker.schedule_next result (others 5 t₁)) (later 5 t₁)
            (schedule_next-Later result (others 5 t₁)))

  handle_submit_failure-Later :
      (t : Tables) → Later t (left whole (Worker.handle_submit_failure s others t))
  unfolding Worker.handle_submit_failure
  handle_submit_failure-Later t =
      >>=-Later 0 t whole whole (Worker.apply s others 6 Worker.worker_failure t)
        (λ t₁. ok (Worker.schedule_next Worker.worker_failure (others 7 t₁)))
        (apply-Later 6 Worker.worker_failure t)
        (λ t₁.
          Later-trans t₁ (others 7 t₁) (Worker.schedule_next Worker.worker_failure (others 7 t₁))
            (later 7 t₁) (schedule_next-Later Worker.worker_failure (others 7 t₁)))

  load_connection-Later :
      (row : FiscalSubmission) (t : Tables)
      → Later t (left rest_of (Worker.load_connection s others row t))
  unfolding Worker.load_connection
  load_connection-Later row t =
      if-Within 0 0 t rest_of t.is_connected (ok (some row, t))
        (Worker.apply s others 1 Worker.not_connected t >>= λ t₁. ok (none, t₁)) (Later-refl t)
        (>>=-Later 0 t whole rest_of (Worker.apply s others 1 Worker.not_connected t)
          (λ t₁. ok (none, t₁)) (apply-Later 1 Worker.not_connected t) Later-refl)

  load_context-Later : (t : Tables) → Later t (left rest_of (Worker.load_context s others t))
  unfolding Worker.load_context
  load_context-Later t =
      elim t.submission
        as (λ o. Later t (
          left rest_of (elim o [
            | none ↦ ok (none, t)
            | some row ↦ Worker.load_connection s others row (others 0 t)
          ]))) [
            | none ↦ Later-refl t
            | some row ↦
                Later-trans t (others 0 t)
                  (left rest_of (Worker.load_connection s others row (others 0 t))) (later 0 t)
                  (load_connection-Later row (others 0 t))
          ]

  -- A request that sends `n` POSTs.
  send-Within :
      (n : ℕ) (token : Bool) (answer : Option HaciendaSubmissionResult) (request : Tables → Tables)
      (t : Tables)
      → ((t' : Tables) → Within n 0 t' (request t'))
      → Within n 0 t (left rest_of (Worker.send s others token answer request t))
  unfolding Worker.send
  send-Within n true (some result) request t sends =
      Later-Within n t (others 2 t) (request (others 2 t)) (later 2 t) (sends (others 2 t))
  send-Within n true none request t sends =
      Later-Within n t (others 2 t) (request (others 2 t)) (later 2 t) (sends (others 2 t))
  send-Within n false answer request t sends =
      Within-weaken 0 n 0 0 t (others 2 t) (omega arith) (later 2 t)

  ask-Within :
      (n : ℕ) (request : Tables → Tables) (t : Tables)
      → ((t' : Tables) → Within n 0 t' (request t'))
      → Within (n + n) 0 t (left rest_of (Worker.ask s others request t))
  unfolding Worker.ask Worker.send_again
  ask-Within n request t sends =
      >>=-Within n 0 n t rest_of rest_of (Worker.send s others s.token s.answer request t)
        (Worker.send_again s others request) (send-Within n s.token s.answer request t sends)
        (λ p.
          if-Within n 0 p.1 rest_of (Worker.is_token_expired p.0)
            (Worker.send s others s.refreshed_token s.second_answer request p.1) (ok p)
            (send-Within n s.refreshed_token s.second_answer request p.1 sends)
            (Within-weaken 0 n 0 0 p.1 p.1 (omega arith) (Later-refl p.1)))

  -- What follows a request.
  asked-Within :
      (n : ℕ) (request : Tables → Tables) (t : Tables)
      → ((t' : Tables) → Within n 0 t' (request t'))
      → Within (n + n) 0 t (left whole (Worker.ask_and_settle s others request t))
  unfolding Worker.ask_and_settle
  asked-Within n request t sends =
      >>=-Later (n + n) t rest_of whole (Worker.ask s others request t)
        (λ p. Worker.settle s others p.0 (others 8 p.1)) (ask-Within n request t sends)
        (λ p.
          Later-trans p.1 (others 8 p.1) (left whole (Worker.settle s others p.0 (others 8 p.1)))
            (later 8 p.1) (settle-Later p.0 (others 8 p.1)))

  submit_context-Within :
      (p : Option FiscalSubmission × Tables)
      → Within 2 0 p.1 (left whole (Worker.submit_context s others p))
  unfolding Worker.submit_context
  submit_context-Within (none, t) = Within-weaken 0 2 0 0 t t (omega arith) (Later-refl t)
  submit_context-Within (some row, t) =
      >>=-Within 0 0 2 t whole whole (Worker.require s.signed_xml t)
        (Worker.ask_and_settle s others (record_event posted)) (require-Later s.signed_xml t)
        (λ t₁. asked-Within 1 (record_event posted) t₁ posted-Within)

  submit_claimed-Within :
      (t : Tables) → Within 2 0 t (left whole (Worker.submit_claimed s others t))
  unfolding Worker.submit_claimed
  submit_claimed-Within t =
      >>=-Within 0 0 2 t rest_of whole (Worker.load_context s others t)
        (Worker.submit_context s others) (load_context-Later t) submit_context-Within

  or_failure-Within :
      (t : Tables) (r : Result Tables Tables)
      → Within 2 0 t (left whole r)
      → Within 2 0 t (left whole (Worker.or_failure s others r))
  or_failure-Within t (ok t') w = w
  or_failure-Within t (err t') w =
      Within-trans 2 0 0 0 t t' (left whole (Worker.handle_submit_failure s others t')) w
        (handle_submit_failure-Later t')

  submit_if_claimed-Later :
      (t : Tables) (claim : Option Tables)
      → ((t₁ : Tables) → claim ≡ some t₁ → Within 0 2 t t₁)
      → Later t (left whole (Worker.submit_if_claimed s others claim t))
  submit_if_claimed-Later t none claims = Later-refl t
  submit_if_claimed-Later t (some t₁) claims =
      let last =
        left whole (Worker.or_failure s others (Worker.submit_claimed s others (others 9 t₁))) in
      Within-weaken 2 0 2 0 t last (omega arith) (
        Within-trans 0 2 2 0 t t₁ last (claims t₁ refl) (
          Later-Within 2 t₁ (others 9 t₁) last (later 9 t₁) (
            or_failure-Within (others 9 t₁) (Worker.submit_claimed s others (others 9 t₁))
              (submit_claimed-Within (others 9 t₁)))))

  -- A submit job keeps a decided submission and its document, keeps them in agreement, and sends at
  -- most two POSTs for an attempt that it counts.
  pub handle_submit_job-Later :
      (t : Tables) → Later t (left whole (Worker.handle_submit_job s others t))
  unfolding Worker.handle_submit_job
  handle_submit_job-Later t =
      submit_if_claimed-Later t (Worker.claim_submission s.now t) (claim_submission-Within s.now t)

  reconcile_context-Later :
      (p : Option FiscalSubmission × Tables)
      → Later p.1 (left whole (Worker.reconcile_context s others p))
  unfolding Worker.reconcile_context
  reconcile_context-Later (none, t) = Later-refl t
  reconcile_context-Later (some row, t) =
      let t₁ = others 10 t in
      let t₂ = Worker.count_reconciliation s.now t₁ in
      let last = left whole (Worker.ask_and_settle s others (record_event queried) t₂) in
      if-Within 0 0 t whole (is_terminal row.status) (ok t)
        (Worker.ask_and_settle s others (record_event queried) t₂) (Later-refl t)
        (Later-trans t t₁ last (later 10 t) (
          Later-trans t₁ t₂ last (counted-Later s.now t₁) (
            Within-weaken (0 + 0) 0 0 0 t₂ last (omega arith) (
              asked-Within 0 (record_event queried) t₂
                (λ t'. Within-same t' (record_event queried t') refl refl refl refl)))))

  pub handle_reconcile_job-Later :
      (t : Tables) → Later t (left whole (Worker.handle_reconcile_job s others t))
  unfolding Worker.handle_reconcile_job
  handle_reconcile_job-Later t =
      >>=-Later 0 t rest_of whole (Worker.load_context s others t)
        (Worker.reconcile_context s others) (load_context-Later t) reconcile_context-Later

  recover-Later :
      (row : FiscalSubmission) (t : Tables) → Later t (left whole (Worker.recover s others row t))
  unfolding Worker.recover
  recover-Later row t =
      >>=-Later 0 t whole whole
        (if same row.status submitting
          then Worker.apply s others 1 Worker.stale_recovered t
          else ok t)
        (λ t₁. ok (publish (Worker.recovery_job s others row) t₁))
        (if-Within 0 0 t whole (same row.status submitting)
          (Worker.apply s others 1 Worker.stale_recovered t) (ok t)
          (apply-Later 1 Worker.stale_recovered t) (Later-refl t))
        (λ t₁. Within-same t₁ (publish (Worker.recovery_job s others row) t₁) refl refl refl refl)

  recover_all-Later :
      (rows : List FiscalSubmission) (t : Tables)
      → Later t (left whole (Worker.recover_all s others rows t))
  unfolding Worker.recover_all
  recover_all-Later [] t = Later-refl t
  recover_all-Later (row ∷ rows) t =
      >>=-Later 0 t whole whole (Worker.recover s others row t) (Worker.recover_all s others rows)
        (recover-Later row t) (recover_all-Later rows)

  pub enqueue_due_work-Later :
      (t : Tables) → Later t (left whole (Worker.enqueue_due_work s others t))
  unfolding Worker.enqueue_due_work
  enqueue_due_work-Later t =
      let t₁ = others 0 t in
      let t₂ = others 2 t₁ in
      let rows = Worker.due s others t ++ Worker.stale_submitting s others t₁ in
      let last = left whole (Worker.recover_all s others rows t₂) in
      Later-trans t t₁ last (later 0 t)
        (Later-trans t₁ t₂ last (later 2 t₁) (recover_all-Later rows t₂))
