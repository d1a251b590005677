-- ===== src/Submission/Tests.antt =====
-- Runs of the theorems on submissions.
use billing_api.Common.{true, false, [], ◌∷◌, none, some, ◌≡◌, ◌≢◌, ◌↔◌, ◌⊎◌, refl}
use billing_api.Submission.StateMachine.{
  queued, submitting, acknowledged, accepted, rejected, superseded, applied, is_terminal,
  evaluate_transition,
}
use billing_api.Submission.Lifecycle.{
  ◌⟶◌, moves, is_fresh, evaluate_transition-applied_iff, moves-ne-superseded,
}
use billing_api.Submission.RetryClassifier.{
  RetryClassifierInput, possibly_sent, sent, provider_5xx, token_expired_or_invalid, classify,
}
use billing_api.Submission.RetrySafety.{is_blind_retry, denies_receipt, sent_blind_iff}

abbrev trouble : RetryClassifierInput
trouble = record {
  failure_kind = provider_5xx;
  provider_send_state = some possibly_sent;
  retry_after_seconds = none;
  rate_limit_reset_at = none;
  has_authoritative_rejection = none;
  is_definitely_not_submitted = none;
}

abbrev sent_trouble : RetryClassifierInput
sent_trouble = record trouble { provider_send_state = some sent }

evaluate_transition-applied_iff_example :
    ((evaluate_transition submitting acknowledged).outcome ≡ applied)
    ↔ ((submitting ≡ acknowledged) ⊎ (submitting ⟶ acknowledged))
evaluate_transition-applied_iff_example = evaluate_transition-applied_iff submitting acknowledged

accepted_terminal : is_terminal accepted ≡ true
unfolding is_terminal
accepted_terminal = refl

queued-ne-superseded : queued ≢ superseded
queued-ne-superseded h = cc

moves-ne-superseded_example : moves queued (submitting ∷ superseded ∷ []) ≢ superseded
moves-ne-superseded_example =
    moves-ne-superseded queued (submitting ∷ superseded ∷ []) queued-ne-superseded

submitted : is_fresh (moves queued (submitting ∷ accepted ∷ [])) ≡ false
unfolding moves
submitted = refl

submitting-ne-rejected : submitting ≢ rejected
submitting-ne-rejected h = cc

submitting-ne-superseded : submitting ≢ superseded
submitting-ne-superseded h = cc

sent_blind_iff_example : (is_blind_retry (classify sent_trouble) ≡ true) ↔ (
    (denies_receipt sent_trouble ≡ true)
    ⊎ (sent_trouble.failure_kind ≡ token_expired_or_invalid)
    ⊎ (sent_trouble.failure_kind ≡ provider_5xx))
sent_blind_iff_example = sent_blind_iff sent_trouble refl
