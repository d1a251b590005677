-- ===== src/Submission/RetrySafety.antt =====
-- What the decisions of the retry classifier promise: their flags agree, the state machine can
-- carry them out, and which failures are retried with no reconciliation.
use billing_api.Common.{Bool, true, false, not, ◌≡◌, ◌≢◌, ◌↔◌, ◌⊎◌, some, arith}
use billing_api.Submission.StateMachine.{
  submitting, manual_review_required, is_terminal, can_transition,
}
use billing_api.Submission.RetryClassifier.{
  possibly_sent, sent, token_expired_or_invalid, connectivity_failure, provider_5xx, provider_429,
  status_processing, status_not_found, local_error_before_post, retry, reconcile, poll,
  terminal_rejected, RetryClassifierInput, RetryClassifierDecision, truthy, classify,
}

-- The flags of a decision follow its action and its next status.
pub record IsCoherent (d : RetryClassifierDecision) : Type 0 where
  pub final_iff : (d.is_final ≡ true) ↔ (is_terminal d.next_status ≡ true)
  pub final_action : (d.is_final ≡ true) ↔ (d.action ≡ terminal_rejected)
  pub manual_iff :
      (d.requires_manual_intervention ≡ true) ↔ (d.next_status ≡ manual_review_required)
  pub retry_iff : (d.should_retry ≡ true) ↔ ((d.action ≡ retry) ⊎ (d.action ≡ poll))
  pub reconcile_of : d.action ≡ reconcile → d.should_reconcile_before_retry ≡ true
  pub final_rests : d.is_final ≡ true → d.should_retry ≡ false
  pub manual_rests : d.requires_manual_intervention ≡ true → d.should_retry ≡ false

-- Every decision is coherent.
classify-IsCoherent : (input : RetryClassifierInput) → IsCoherent (classify input)
unfolding classify is_terminal
classify-IsCoherent input = ground arith

-- The status that a decision asks for can be entered from `SUBMITTING` for every failure but
-- `STATUS_PROCESSING`, and for that one it cannot.
classify-can_transition :
    (input : RetryClassifierInput)
    → (can_transition submitting (classify input).next_status ≡ true)
      ↔ (input.failure_kind ≢ status_processing)
unfolding classify can_transition
classify-can_transition input = ground arith

-- A decision to send again with no query by Clave in between.
abbrev pub is_blind_retry : RetryClassifierDecision → Bool
is_blind_retry d = elim d.action [ retry ↦ not d.should_reconcile_before_retry | _ ↦ false ]

-- The failures that say by themselves that the document was not received.
abbrev pub denies_receipt : RetryClassifierInput → Bool
denies_receipt input = elim input.failure_kind [
  | connectivity_failure ↦ true
  | provider_429 ↦ true
  | local_error_before_post ↦ true
  | status_not_found ↦ truthy input.is_definitely_not_submitted
  | _ ↦ false
]

-- After a possible send, the decision is such a retry exactly when the failure itself says that the
-- document was not received.
possibly_sent_blind_iff :
    (input : RetryClassifierInput)
    → input.provider_send_state ≡ some possibly_sent
    → is_blind_retry (classify input) ≡ denies_receipt input
unfolding classify
possibly_sent_blind_iff input h = ground arith

-- For a failure after a confirmed send, the classifier decides on a retry with no reconciliation
-- before it exactly when the failure says that the document was not received, or is an expired token
-- or a provider 5xx.
pub sent_blind_iff :
    (input : RetryClassifierInput)
    → input.provider_send_state ≡ some sent
    → (is_blind_retry (classify input) ≡ true) ↔ (
        (denies_receipt input ≡ true)
        ⊎ (input.failure_kind ≡ token_expired_or_invalid)
        ⊎ (input.failure_kind ≡ provider_5xx))
unfolding classify
sent_blind_iff input h = ground arith
