-- ===== src/Submission/StateMachine.antt =====
-- domain/submission/fiscal-submission-state-machine.ts. A lookup in the `Map` of allowed
-- transitions is a function of the status, and a `Set` is a list.
use billing_api.Common.{
  ℕ, Option, none, some, Bool, true, false, ◌||◌, List, [], ◌∷◌, String, ◌==◌, if◌then◌else◌,
}

pub data FiscalSubmissionStatus : Type 0 where
  requested queued submitting post_outcome_unknown acknowledged processing : FiscalSubmissionStatus
  accepted rejected technical_retry_pending manual_review_required : FiscalSubmissionStatus
  superseded : FiscalSubmissionStatus

-- The place of a status in `FISCAL_SUBMISSION_STATUSES`, by which two are compared.
abbrev pub index : FiscalSubmissionStatus → ℕ
index requested = 0
index queued = 1
index submitting = 2
index post_outcome_unknown = 3
index acknowledged = 4
index processing = 5
index accepted = 6
index rejected = 7
index technical_retry_pending = 8
index manual_review_required = 9
index superseded = 10

-- `from === to`
abbrev pub same : FiscalSubmissionStatus → FiscalSubmissionStatus → Bool
same from to = index from == index to

-- `set.has(status)`, and `[…].includes(status)`
unfoldable pub has : List FiscalSubmissionStatus → FiscalSubmissionStatus → Bool
has [] s = false
has (t ∷ ts) s = same t s || has ts s

pub data TransitionOutcome : Type 0 where
  applied not_allowed ignored_stale_terminal : TransitionOutcome

pub record TransitionResult : Type 0 where
  pub outcome : TransitionOutcome
  pub from : FiscalSubmissionStatus
  pub to : FiscalSubmissionStatus
  pub reason : String

abbrev pub terminal_statuses : List FiscalSubmissionStatus
terminal_statuses = accepted ∷ rejected ∷ superseded ∷ []

unfoldable pub allowed_transitions : FiscalSubmissionStatus → List FiscalSubmissionStatus
allowed_transitions requested = queued ∷ []
allowed_transitions queued = submitting ∷ []
allowed_transitions submitting =
    acknowledged ∷ accepted ∷ rejected ∷ post_outcome_unknown ∷ technical_retry_pending
    ∷ manual_review_required ∷ []
allowed_transitions post_outcome_unknown =
    processing ∷ accepted ∷ rejected ∷ manual_review_required ∷ []
allowed_transitions acknowledged = processing ∷ accepted ∷ rejected ∷ technical_retry_pending ∷ []
allowed_transitions processing = accepted ∷ rejected ∷ technical_retry_pending ∷ []
allowed_transitions technical_retry_pending = queued ∷ []
allowed_transitions manual_review_required = queued ∷ post_outcome_unknown ∷ []
allowed_transitions accepted = []
allowed_transitions rejected = []
allowed_transitions superseded = []

unfoldable pub is_terminal : FiscalSubmissionStatus → Bool
unfolding has
is_terminal status = has terminal_statuses status

unfoldable pub can_transition : FiscalSubmissionStatus → FiscalSubmissionStatus → Bool
unfolding has allowed_transitions
can_transition from to = if same from to then true else has (allowed_transitions from) to

unfoldable pub evaluate_transition :
    FiscalSubmissionStatus → FiscalSubmissionStatus → TransitionResult
unfolding is_terminal can_transition
evaluate_transition from to =
    if same from to
    then record {
      outcome = applied;
      from = from;
      to = to;
      reason = "Idempotent transition to the same state.";
    }
    else if is_terminal from
    then record {
      outcome = ignored_stale_terminal;
      from = from;
      to = to;
      reason = "Terminal fiscal submission status is monotonic and cannot regress.";
    }
    else if can_transition from to
    then record {
      outcome = applied;
      from = from;
      to = to;
      reason = "Transition is allowed by the fiscal submission state machine.";
    }
    else record {
      outcome = not_allowed;
      from = from;
      to = to;
      reason = "Transition is not allowed by the fiscal submission state machine.";
    }

-- `none` is a normal return, `some reason` the `Error` that is thrown.
unfoldable pub assert_can_transition :
    FiscalSubmissionStatus → FiscalSubmissionStatus → Option String
unfolding evaluate_transition
assert_can_transition from to =
    let result = evaluate_transition from to in
    elim result.outcome [ applied ↦ none | _ ↦ some result.reason ]
