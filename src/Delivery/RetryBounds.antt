-- ===== src/Delivery/RetryBounds.antt =====
-- What the decisions on a failed delivery promise: when they retry, how long they wait, and that
-- the state machine can carry them out.
use native.Mathlib.Nat.{pow-suc}
use billing_api.Common.{
  ℕ, zero, suc, ◌^◌, ◌≤◌, true, false, ◌≡◌, ◌≢◌, ◌↔◌, ◌⊎◌, Option, none, some, arith, is_some,
}
use billing_api.Delivery.StateMachine.{
  DocumentDeliveryKind, sending, retry_pending, failed, allowed, evaluate_transition,
}
use billing_api.Delivery.RetryClassifier.{
  artifact_hash_mismatch, artifact_corrupt, historical_mock, duplicate_trigger,
  manual_resend_after_delivered, worker_crash_stale_sending, DeliveryErrorInput,
  exponential_backoff, classify,
}

pow_pos : (n : ℕ) → 1 ≤ 2 ^ n
pow_pos zero = omega arith
pow_pos (suc n) = rw pow-suc (omega (arith, pow_pos n))

-- The backoff never waits less than a minute nor more than an hour.
exponential_backoff_bounds :
    (jitter n : ℕ) → (60 ≤ exponential_backoff jitter n) × (exponential_backoff jitter n ≤ 3600)
unfolding exponential_backoff
exponential_backoff_bounds jitter n = omega (arith, pow_pos n)

-- What holds of a delay, if there is one.
abbrev pub Within : ℕ → ℕ → Option ℕ → Type 0
Within lo hi none = Unit
Within lo hi (some d) = (lo ≤ d) × (d ≤ hi)

-- Whatever the jitter, a delay is given exactly with `RETRY_PENDING`, and it lies between 30 seconds
-- and an hour.
classify_delay :
    (jitter : ℕ) (input : DeliveryErrorInput)
    → ((is_some (classify jitter input).retry_delay_seconds ≡ true)
        ↔ ((classify jitter input).next_status ≡ retry_pending))
      × Within 30 3600 (classify jitter input).retry_delay_seconds
unfolding classify
classify_delay jitter input = ground (arith, exponential_backoff_bounds jitter input.retry_count)

-- Once the retries are used up a delivery waits for no further retry, unless a worker crashed.
classify_horizon :
    (jitter : ℕ) (input : DeliveryErrorInput)
    → input.max_retries ≤ input.retry_count
    → ((classify jitter input).next_status ≡ retry_pending)
      ↔ (input.error_class ≡ worker_crash_stale_sending)
unfolding classify
classify_horizon jitter input h = ground arith

-- A decision on a delivery that is being sent can be carried out by the state machine, for every
-- error class but the two that are no failures of an attempt.
classify-allowed_iff :
    (jitter : ℕ) (kind : DocumentDeliveryKind) (input : DeliveryErrorInput)
    → ((evaluate_transition kind sending (classify jitter input).next_status).outcome ≡ allowed) ↔ (
        (input.error_class ≢ duplicate_trigger)
        × (input.error_class ≢ manual_resend_after_delivered))
unfolding classify evaluate_transition
classify-allowed_iff jitter kind input = ground arith

-- A security event is emitted exactly for an artifact whose hash does not match, that is corrupt or
-- that is a historical mock; such a delivery has failed, and is not retried.
classify_security :
    (jitter : ℕ) (input : DeliveryErrorInput)
    → (((classify jitter input).emit_security_audit ≡ true) ↔ (
        (input.error_class ≡ artifact_hash_mismatch)
        ⊎ (input.error_class ≡ artifact_corrupt)
        ⊎ (input.error_class ≡ historical_mock)))
      × ((classify jitter input).emit_security_audit ≡ true
          → ((classify jitter input).next_status ≡ failed)
            × ((classify jitter input).retry_delay_seconds ≡ none)
            × ((classify jitter input).immediate_retry ≡ false))
unfolding classify
classify_security jitter input = ground arith
