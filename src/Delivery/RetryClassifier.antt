-- ===== src/Delivery/RetryClassifier.antt =====
-- domain/delivery/delivery-retry-classifier.ts. `Math.floor(Math.random() * 30)` is the argument
-- `jitter`, a number below 30. `Math.pow(2, n)` is exact, and past the range of a double it is
-- above the cap on both sides.
use Prim.Native.Nat.{min}
use Prim.Native.String.{◌++◌}
use billing_api.Common.{
  ℕ, ◌+◌, ◌*◌, ◌^◌, Bool, true, false, String, Option, none, some, leb, if◌then◌else◌,
}
use billing_api.Delivery.StateMachine.{
  DocumentDeliveryStatus, queued, retry_pending, failed, manual_review_required,
}

pub data DeliveryErrorClass : Type 0 where
  transient_provider_failure provider_rate_limit network_timeout : DeliveryErrorClass
  invalid_recipient permanent_provider_rejection : DeliveryErrorClass
  artifact_missing artifact_hash_mismatch artifact_corrupt : DeliveryErrorClass
  artifact_wrong_version historical_mock pdf_not_yet_generated : DeliveryErrorClass
  config_credential_error unknown_provider_response : DeliveryErrorClass
  unknown_external_outcome worker_crash_stale_sending : DeliveryErrorClass
  duplicate_trigger manual_resend_after_delivered : DeliveryErrorClass
  rejected_hacienda_response : DeliveryErrorClass

pub record DeliveryErrorInput : Type 0 where
  pub error_class : DeliveryErrorClass
  pub retry_count : ℕ
  pub max_retries : ℕ
  pub already_delivered : Option Bool

pub record DeliveryClassificationResult : Type 0 where
  pub next_status : DocumentDeliveryStatus
  pub immediate_retry : Bool
  pub retry_delay_seconds : Option ℕ
  pub emit_security_audit : Bool
  pub reason : String

unfoldable pub exponential_backoff : ℕ → ℕ → ℕ
exponential_backoff jitter attempt = min (60 * 2 ^ attempt + jitter) 3600

-- A result that is not retried.
abbrev settle : DocumentDeliveryStatus → Bool → String → DeliveryClassificationResult
settle next audit reason = record {
  next_status = next;
  immediate_retry = false;
  retry_delay_seconds = none;
  emit_security_audit = audit;
  reason = reason;
}

-- A retry after a delay.
abbrev postpone : ℕ → String → DeliveryClassificationResult
postpone delay reason = record {
  next_status = retry_pending;
  immediate_retry = false;
  retry_delay_seconds = some delay;
  emit_security_audit = false;
  reason = reason;
}

module _ (jitter : ℕ) where
  unfoldable pub classify_transient : ℕ → ℕ → DeliveryClassificationResult
  classify_transient retry_count max_retries =
      if leb max_retries retry_count
      then settle failed false "Transient failure retry horizon exhausted — delivery failed."
      else postpone (exponential_backoff jitter retry_count)
          "Transient provider failure — exponential backoff retry scheduled."

  -- The chain of tests on `errorClass`, which exclude one another.
  classify_class : DeliveryErrorClass → ℕ → ℕ → DeliveryClassificationResult
  unfolding classify_transient
  classify_class duplicate_trigger n most =
      settle queued false "Duplicate delivery trigger — already queued or processing."
  classify_class artifact_hash_mismatch n most =
      settle failed true "Artifact SHA-256 hash mismatch — possible tampering. Delivery blocked."
  classify_class artifact_corrupt n most =
      settle failed true "Artifact SHA-256 hash mismatch — possible tampering. Delivery blocked."
  classify_class historical_mock n most =
      settle failed true "Artifact SHA-256 hash mismatch — possible tampering. Delivery blocked."
  classify_class artifact_wrong_version n most =
      settle failed false
        "Artifact renderer version is incompatible with current INITIAL_DOCUMENT delivery."
  classify_class artifact_missing n most =
      if leb most n
      then settle failed false
          "Required current artifact remained missing after the bounded retry horizon."
      else postpone 30
          "Artifact missing — bounded retry while current eligible generation can complete."
  classify_class pdf_not_yet_generated n most =
      if leb most n
      then settle failed false "PDF generation did not complete within retry horizon."
      else postpone 30 "PDF not yet generated — scheduling short retry."
  classify_class config_credential_error n most =
      settle manual_review_required false
        "Configuration or credential error — operator intervention required."
  classify_class invalid_recipient n most = settle failed false (
      "Permanent delivery failure (" ++ "INVALID_RECIPIENT"
      ++ ") — recipient correction and manual resend required.")
  classify_class permanent_provider_rejection n most = settle failed false (
      "Permanent delivery failure (" ++ "PERMANENT_PROVIDER_REJECTION"
      ++ ") — recipient correction and manual resend required.")
  classify_class worker_crash_stale_sending n most =
      postpone 60 "Worker crashed before provider result was applied — recovering to retry."
  classify_class manual_resend_after_delivered n most =
      record (settle queued false
        "Manual resend requested after successful delivery — new attempt created.") {
          immediate_retry = true;
        }
  classify_class rejected_hacienda_response n most = classify_transient n most
  classify_class transient_provider_failure n most = classify_transient n most
  classify_class network_timeout n most = classify_transient n most
  classify_class provider_rate_limit n most = classify_transient n most
  classify_class unknown_external_outcome n most =
      settle manual_review_required false
        "External delivery outcome is unknown — operator review required before resend."
  classify_class unknown_provider_response n most =
      if leb most n
      then settle manual_review_required false
          "Unknown provider response exceeded retry limit — manual review required."
      else postpone (exponential_backoff jitter n) "Unknown provider response — bounded retry."

  unfoldable pub classify : DeliveryErrorInput → DeliveryClassificationResult
  unfolding classify_class
  classify input = classify_class input.error_class input.retry_count input.max_retries
