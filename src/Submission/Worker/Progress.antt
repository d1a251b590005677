-- ===== src/Submission/Worker/Progress.antt =====
-- What a submit job comes to if no other process interrupts it.
use billing_api.Common.{
  ℕ, ◌≡◌, ◌∙◌, ap, ◌⊎◌, inl, inr, refl, Bool, true, false, ◌&&◌, ◌||◌, Option, none, some, is_some,
  List, ◌∷◌, Result, ok, err, ◌>>=◌, if◌then◌else◌, Bool-cases, Option-cases, arith,
}
use billing_api.Submission.StateMachine.{
  applied, FiscalSubmissionStatus, submitting, acknowledged, technical_retry_pending,
  post_outcome_unknown, manual_review_required, is_terminal, has, evaluate_transition,
  can_transition, allowed_transitions,
}
use billing_api.Submission.Provider.{HaciendaSubmissionResult}
use billing_api.Submission.Provider.Answers.{is_post_status}
use billing_api.Submission.State.{
  FiscalSubmission, Job, submit_job, reconcile_job, posted, Tables, on_row, record_event, Upload,
  next_attempt_at, retry_after_of, stored_response, is_invalid, apply_provider_result,
  apply_outcome, apply_transition, commit_result, follow_up, updated_row,
}
use billing_api.Submission.Worker
use billing_api.Submission.Requests.Safety.{quiet}

-- The job that goes on with a submission in a status was published last.
abbrev pub is_followed : FiscalSubmissionStatus → List Job → Bool
is_followed acknowledged (reconcile_job ∷ js) = true
is_followed post_outcome_unknown (reconcile_job ∷ js) = true
is_followed technical_retry_pending (submit_job ∷ js) = true
is_followed manual_review_required js = true
is_followed _ _ = false

abbrev pub Moved : Tables → Type 0
Moved t =
    (row : FiscalSubmission) × (t.submission ≡ some row) × (is_followed row.status t.jobs ≡ true)

abbrev Submitting : Tables → Type 0
Submitting t = (row : FiscalSubmission) × (t.submission ≡ some row) × (row.status ≡ submitting)

evaluate_transition-submitting :
    (next : FiscalSubmissionStatus)
    → is_post_status next ≡ true
    → (evaluate_transition submitting next).outcome ≡ applied
unfolding evaluate_transition can_transition is_terminal has allowed_transitions
evaluate_transition-submitting next h = ground arith

-- A result is applied to a submission that is being sent, or the call throws before it writes.
apply_transition-submitting :
    (now : ℕ) (upload : Upload) (result : HaciendaSubmissionResult) (t : Tables)
    (row : FiscalSubmission)
    → t.submission ≡ some row
    → row.status ≡ submitting
    → let time = next_attempt_at now result.next_status (retry_after_of result.rate_limit) in
      let r = apply_transition now upload row result t in
      ((r ≡ err t)
        × (((is_some result.response_artifact && upload.fails) || is_invalid time) ≡ true))
      ⊎ ((t' : Tables) × (row' : FiscalSubmission) × (r ≡ ok t')
          × (t'.submission ≡ some row')
          × (row'.status ≡ result.next_status)
          × (t'.jobs ≡ t.jobs))
unfolding apply_transition commit_result follow_up is_terminal has
apply_transition-submitting now upload result t row e sending =
    let stored = stored_response now upload result.response_artifact in
    let time = next_attempt_at now result.next_status (retry_after_of result.rate_limit) in
    elim (Bool-cases ((is_some result.response_artifact && upload.fails) || is_invalid time)) [
      | inl throws ↦ inl (ground arith)
      | inr writes ↦ inr (
        follow_up result stored (commit_result now row result stored t),
        updated_row now row result stored row,
        ground arith,
        ground arith,
        refl,
        ground arith,
      )
    ]

-- A submission that is still being sent after an error, or that has moved on.
abbrev Ended : Result Tables Tables → Type 0
Ended (err t) = Submitting t
Ended (ok t) = Moved t

abbrev pub Done : Result Tables Tables → Type 0
Done (err t) = ⊥
Done (ok t) = Moved t

abbrev Context : Result Tables (Option FiscalSubmission × Tables) → Type 0
Context (err t) = ⊥
Context (ok (none, t)) = Moved t
Context (ok (some row, t)) = Submitting t

abbrev Sent : Result Tables (HaciendaSubmissionResult × Tables) → Type 0
Sent (err t) = Submitting t
Sent (ok p) = Submitting p.1 × (is_post_status p.0.next_status ≡ true)

Ended-as : (r r' : Result Tables Tables) → r ≡ r' → Ended r' → Ended r
Ended-as r r' e h = rw e h

Done-as : (r r' : Result Tables Tables) → r ≡ r' → Done r' → Done r
Done-as r r' e h = rw e h

Context-as :
    (r r' : Result Tables (Option FiscalSubmission × Tables)) → r ≡ r' → Context r' → Context r
Context-as r r' e h = rw e h

if-Context :
    (test : Bool) (x y : Result Tables (Option FiscalSubmission × Tables))
    → Context x
    → Context y
    → Context (if test then x else y)
if-Context true x y hx hy = hx
if-Context false x y hx hy = hy

if-Sent :
    (test : Bool) (x y : Result Tables (HaciendaSubmissionResult × Tables))
    → Sent x
    → Sent y
    → Sent (if test then x else y)
if-Sent true x y hx hy = hx
if-Sent false x y hx hy = hy

>>=-Sent :
    (first : Result Tables (HaciendaSubmissionResult × Tables))
    (rest : HaciendaSubmissionResult × Tables → Result Tables (HaciendaSubmissionResult × Tables))
    → Sent first
    → ((p : HaciendaSubmissionResult × Tables) → Sent (ok p) → Sent (rest p))
    → Sent (first >>= rest)
>>=-Sent (err t) rest h hs = h
>>=-Sent (ok p) rest h hs = hs p h

Sent-Ended :
    (first : Result Tables (HaciendaSubmissionResult × Tables))
    (rest : HaciendaSubmissionResult × Tables → Result Tables Tables)
    → Sent first
    → ((p : HaciendaSubmissionResult × Tables) → Sent (ok p) → Ended (rest p))
    → Ended (first >>= rest)
Sent-Ended (err t) rest h hs = h
Sent-Ended (ok p) rest h hs = hs p h

Context-Ended :
    (first : Result Tables (Option FiscalSubmission × Tables))
    (rest : Option FiscalSubmission × Tables → Result Tables Tables)
    → Context first
    → ((p : Option FiscalSubmission × Tables) → Context (ok p) → Ended (rest p))
    → Ended (first >>= rest)
Context-Ended (err t) rest h hs = elim h [ ]
Context-Ended (ok p) rest h hs = hs p h

abbrev none_after : Result Tables Tables → Result Tables (Option FiscalSubmission × Tables)
none_after r = r >>= λ t₁. ok (none, t₁)

schedule_next-Moved :
    (result : HaciendaSubmissionResult) (t : Tables) (row : FiscalSubmission)
    → t.submission ≡ some row
    → row.status ≡ result.next_status
    → is_post_status result.next_status ≡ true
    → Moved (Worker.schedule_next result t)
unfolding Worker.schedule_next has
schedule_next-Moved result t row e moved asks = (row, ground arith, ground arith)

claimed-Submitting :
    (now : ℕ) (t : Tables)
    → Worker.is_claimable t.submission ≡ true
    → Submitting (record t { submission = on_row (Worker.claimed now) t.submission })
unfolding has
claimed-Submitting now t claimable = elim (Option-cases t.submission) [
  | inl missing ↦ absurd (ground arith)
  | inr (row, found) ↦ (Worker.claimed now row, ap (on_row (Worker.claimed now)) found, refl)
]

module _ (s : Worker.Services) where
  apply-submitting :
      (k : ℕ) (result : HaciendaSubmissionResult) (t : Tables) (row : FiscalSubmission)
      → t.submission ≡ some row
      → row.status ≡ submitting
      → is_post_status result.next_status ≡ true
      → Worker.apply s quiet k result t ≡ apply_transition s.now s.upload row result t
  unfolding Worker.apply apply_provider_result
  apply-submitting k result t row e sending asks =
      let transition = evaluate_transition row.status result.next_status in
      ap (λ o. apply_provider_result s.now s.upload o result t) e
      ∙ ap (λ o. apply_outcome s.now s.upload row result transition o t)
          (ap (λ x. (evaluate_transition x result.next_status).outcome) sending
            ∙ evaluate_transition-submitting result.next_status asks)

  -- What follows an application, with the tables as they were if it throws.
  go_on-Ended :
      (k : ℕ) (result : HaciendaSubmissionResult) (t : Tables)
      → Submitting t
      → is_post_status result.next_status ≡ true
      → Ended (Worker.apply s quiet k result t >>= λ t₁. ok (Worker.schedule_next result t₁))
  go_on-Ended k result t (row, e, sending) asks =
      let applying = apply-submitting k result t row e sending asks in
      elim (apply_transition-submitting s.now s.upload result t row e sending) [
        | inl (throws, why) ↦
            Ended-as (next (Worker.apply s quiet k result t)) (err t) (ap next (applying ∙ throws))
              (row, e, sending)
        | inr (t₁, row', writes, found, moved, jobs) ↦
            Ended-as (next (Worker.apply s quiet k result t)) (ok (Worker.schedule_next result t₁))
              (ap next (applying ∙ writes)) (schedule_next-Moved result t₁ row' found moved asks)
      ]
    where
      next : Result Tables Tables → Result Tables Tables
      next r = r >>= λ t₁. ok (Worker.schedule_next result t₁)

  settle-Ended :
      (result : HaciendaSubmissionResult) (t : Tables)
      → Submitting t
      → is_post_status result.next_status ≡ true
      → Ended (Worker.settle s quiet result t)
  unfolding Worker.settle
  settle-Ended result t sending asks = go_on-Ended 4 result t sending asks

  -- The failure of a job is always noted, and the job published again.
  handle_submit_failure-Done :
      (t : Tables) → Submitting t → Done (Worker.handle_submit_failure s quiet t)
  unfolding Worker.handle_submit_failure next_attempt_at
  handle_submit_failure-Done t (row, e, sending) =
      let result = Worker.worker_failure in
      let applying = apply-submitting 6 result t row e sending refl in
      elim (apply_transition-submitting s.now s.upload result t row e sending) [
        | inl (throws, why) ↦ absurd (ground arith)
        | inr (t₁, row', writes, found, moved, jobs) ↦
            Done-as (next (Worker.apply s quiet 6 result t)) (ok (Worker.schedule_next result t₁))
              (ap next (applying ∙ writes)) (schedule_next-Moved result t₁ row' found moved refl)
      ]
    where
      next : Result Tables Tables → Result Tables Tables
      next r = r >>= λ t₁. ok (Worker.schedule_next Worker.worker_failure t₁)

  -- A submission without a connection is left for a review.
  load_connection-Context :
      (row : FiscalSubmission) (t : Tables)
      → t.submission ≡ some row
      → row.status ≡ submitting
      → Context (Worker.load_connection s quiet row t)
  unfolding Worker.load_connection next_attempt_at
  load_connection-Context row t e sending =
      if-Context t.is_connected (ok (some row, t))
        (none_after (Worker.apply s quiet 1 Worker.not_connected t)) (row, e, sending)
        (elim (apply_transition-submitting s.now s.upload Worker.not_connected t row e sending) [
          | inl (throws, why) ↦ absurd (ground arith)
          | inr (t₁, row', writes, found, moved, jobs) ↦
              Context-as (none_after (Worker.apply s quiet 1 Worker.not_connected t))
                (ok (none, t₁))
                (ap none_after
                  (apply-submitting 1 Worker.not_connected t row e sending refl ∙ writes))
                (row', found, ground arith)
        ])

  load_context-Context : (t : Tables) → Submitting t → Context (Worker.load_context s quiet t)
  unfolding Worker.load_context
  load_context-Context t (row, e, sending) =
      Context-as (Worker.load_context s quiet t) (Worker.load_connection s quiet row t)
        (ap (λ o. elim o [ none ↦ ok (none, t) | some r ↦ Worker.load_connection s quiet r t ]) e)
        (load_connection-Context row t e sending)

  module _
      (answers : (r : HaciendaSubmissionResult)
        → s.answer ≡ some r
        → is_post_status r.next_status ≡ true)
      (second_answers : (r : HaciendaSubmissionResult)
        → s.second_answer ≡ some r
        → is_post_status r.next_status ≡ true) where
    send-Sent :
        (token : Bool) (answer : Option HaciendaSubmissionResult) (t : Tables)
        → Submitting t
        → ((r : HaciendaSubmissionResult) → answer ≡ some r → is_post_status r.next_status ≡ true)
        → Sent (Worker.send s quiet token answer (record_event posted) t)
    unfolding Worker.send
    send-Sent false answer t sending asks = sending
    send-Sent true none t sending asks = sending
    send-Sent true (some r) t sending asks = (sending, asks r refl)

    ask_and_settle-Ended :
        (t : Tables) → Submitting t → Ended (Worker.ask_and_settle s quiet (record_event posted) t)
    unfolding Worker.ask_and_settle Worker.ask Worker.send_again
    ask_and_settle-Ended t sending =
        Sent-Ended (Worker.ask s quiet (record_event posted) t) (λ p. Worker.settle s quiet p.0 p.1)
          (>>=-Sent (Worker.send s quiet s.token s.answer (record_event posted) t)
            (Worker.send_again s quiet (record_event posted))
            (send-Sent s.token s.answer t sending answers)
            (λ p h.
              if-Sent (Worker.is_token_expired p.0)
                (Worker.send s quiet s.refreshed_token s.second_answer (record_event posted) p.1)
                (ok p) (send-Sent s.refreshed_token s.second_answer p.1 h.0 second_answers) h))
          (λ p h. settle-Ended p.0 p.1 h.0 h.1)

    submit_context-Ended :
        (p : Option FiscalSubmission × Tables)
        → Context (ok p)
        → Ended (Worker.submit_context s quiet p)
    unfolding Worker.submit_context
    submit_context-Ended (none, t) moved = moved
    submit_context-Ended (some row, t) sending =
        elim s.signed_xml
          as (λ b.
            Ended (Worker.require b t >>= Worker.ask_and_settle s quiet (record_event posted))) [
              | true ↦ ask_and_settle-Ended t sending
              | false ↦ sending
            ]

    or_failure-Done : (r : Result Tables Tables) → Ended r → Done (Worker.or_failure s quiet r)
    or_failure-Done (ok t) moved = moved
    or_failure-Done (err t) sending = handle_submit_failure-Done t sending

    submit_claimed-Ended : (t : Tables) → Submitting t → Ended (Worker.submit_claimed s quiet t)
    unfolding Worker.submit_claimed
    submit_claimed-Ended t sending =
        Context-Ended (Worker.load_context s quiet t) (Worker.submit_context s quiet)
          (load_context-Context t sending) submit_context-Ended

    -- A submit job that claims its submission leaves it acknowledged or of unknown outcome with a
    -- reconciliation published, to be sent again with that job published, or for a review: never in
    -- `submitting`, and it never throws. The answers of the adapter ask for one of those statuses.
    pub handle_submit_job-Done :
        (t : Tables)
        → Worker.is_claimable t.submission ≡ true
        → Done (Worker.handle_submit_job s quiet t)
    unfolding Worker.handle_submit_job Worker.claim_submission
    handle_submit_job-Done t claimable =
        let t₁ : Tables = record t { submission = on_row (Worker.claimed s.now) t.submission } in
        let claims : Worker.claim_submission s.now t ≡ some t₁ = ground arith in
        Done-as (Worker.handle_submit_job s quiet t) (Worker.submit_if_claimed s quiet (some t₁) t)
          (ap (λ c. Worker.submit_if_claimed s quiet c t) claims)
          (or_failure-Done (Worker.submit_claimed s quiet t₁)
            (submit_claimed-Ended t₁ (claimed-Submitting s.now t claimable)))
