-- ===== src/Submission/RetryClassifier.antt =====
-- domain/submission/retry-classifier.ts. `switch` is by clauses; the private helpers are functions.
use billing_api.Common.{ℕ, Bool, true, false, ◌||◌, String, Option, some, if◌then◌else◌}
use billing_api.Submission.StateMachine.{
  FiscalSubmissionStatus, technical_retry_pending, post_outcome_unknown, manual_review_required,
  rejected, processing,
}

pub data ProviderSendState : Type 0 where
  not_sent possibly_sent sent : ProviderSendState

pub data SubmissionFailureKind : Type 0 where
  auth_invalid_credentials token_expired_or_invalid network_timeout : SubmissionFailureKind
  connectivity_failure provider_5xx provider_429 malformed_request : SubmissionFailureKind
  invalid_signed_xml invalid_clave unauthorized_company : SubmissionFailureKind
  authoritative_rejection already_received_or_duplicate status_processing : SubmissionFailureKind
  status_not_found provider_error_or_unknown_status worker_crash : SubmissionFailureKind
  local_error_before_post local_error_after_post : SubmissionFailureKind

pub data RetryDecisionAction : Type 0 where
  retry reconcile poll manual_review terminal_rejected : RetryDecisionAction

pub data TokenCacheAction : Type 0 where
  keep invalidate reauthenticate : TokenCacheAction

pub data BackoffStrategy : Type 0 where
  no_backoff immediate_once exponential_jitter rate_limit polling : BackoffStrategy

-- Dates are milliseconds since the epoch.
pub record RetryClassifierInput : Type 0 where
  pub failure_kind : SubmissionFailureKind
  pub provider_send_state : Option ProviderSendState
  pub retry_after_seconds : Option ℕ
  pub rate_limit_reset_at : Option ℕ
  pub has_authoritative_rejection : Option Bool
  pub is_definitely_not_submitted : Option Bool

pub record RetryClassifierDecision : Type 0 where
  pub action : RetryDecisionAction
  pub next_status : FiscalSubmissionStatus
  pub should_retry : Bool
  pub should_reconcile_before_retry : Bool
  pub is_final : Bool
  pub requires_manual_intervention : Bool
  pub token_cache_action : TokenCacheAction
  pub backoff_strategy : BackoffStrategy
  pub reason : String

abbrev pub is_possibly_sent : Option ProviderSendState → Bool
is_possibly_sent (some possibly_sent) = true
is_possibly_sent _ = false

abbrev pub is_sent : Option ProviderSendState → Bool
is_sent (some sent) = true
is_sent _ = false

-- An optional flag as a condition.
abbrev pub truthy : Option Bool → Bool
truthy (some true) = true
truthy _ = false

unfoldable pub decide_retry : String → RetryClassifierDecision
decide_retry reason = record {
  action = retry;
  next_status = technical_retry_pending;
  should_retry = true;
  should_reconcile_before_retry = false;
  is_final = false;
  requires_manual_intervention = false;
  token_cache_action = keep;
  backoff_strategy = exponential_jitter;
  reason = reason;
}

unfoldable pub decide_reconcile : String → RetryClassifierDecision
decide_reconcile reason = record {
  action = reconcile;
  next_status = post_outcome_unknown;
  should_retry = false;
  should_reconcile_before_retry = true;
  is_final = false;
  requires_manual_intervention = false;
  token_cache_action = keep;
  backoff_strategy = polling;
  reason = reason;
}

unfoldable pub decide_manual_review : String → TokenCacheAction → RetryClassifierDecision
decide_manual_review reason token_cache_action = record {
  action = manual_review;
  next_status = manual_review_required;
  should_retry = false;
  should_reconcile_before_retry = false;
  is_final = false;
  requires_manual_intervention = true;
  token_cache_action = token_cache_action;
  backoff_strategy = no_backoff;
  reason = reason;
}

unfoldable pub decide_terminal_rejected : String → RetryClassifierDecision
decide_terminal_rejected reason = record {
  action = terminal_rejected;
  next_status = rejected;
  should_retry = false;
  should_reconcile_before_retry = false;
  is_final = true;
  requires_manual_intervention = false;
  token_cache_action = keep;
  backoff_strategy = no_backoff;
  reason = reason;
}

-- The `switch` of `classify`.
classify_kind : SubmissionFailureKind → RetryClassifierInput → RetryClassifierDecision
unfolding decide_retry decide_reconcile decide_manual_review decide_terminal_rejected
classify_kind auth_invalid_credentials input =
    decide_manual_review "Invalid Hacienda credentials require operator correction." invalidate
classify_kind token_expired_or_invalid input = record {
  action = retry;
  next_status = technical_retry_pending;
  should_retry = true;
  should_reconcile_before_retry = is_possibly_sent input.provider_send_state;
  is_final = false;
  requires_manual_intervention = false;
  token_cache_action = reauthenticate;
  backoff_strategy = immediate_once;
  reason = "Expired or invalid bearer token can be retried once after re-authentication.";
}
classify_kind network_timeout input =
    if is_possibly_sent input.provider_send_state || is_sent input.provider_send_state
    then decide_reconcile "Network timeout after possible send must reconcile by Clave."
    else decide_retry "Network timeout before confirmed send is retryable."
classify_kind connectivity_failure input =
    decide_retry "DNS/connectivity/TLS failure before send is retryable."
classify_kind provider_5xx input =
    if is_possibly_sent input.provider_send_state
    then decide_reconcile "Provider 5xx with ambiguous send state must reconcile before retry."
    else decide_retry "Provider 5xx is retryable with bounded backoff."
classify_kind provider_429 input =
    record (decide_retry "Provider rate limit is retryable with rate-limit-aware backoff.") {
      backoff_strategy = rate_limit;
    }
classify_kind malformed_request input =
    decide_manual_review "Malformed local request/configuration must not be retried blindly." keep
classify_kind invalid_signed_xml input =
    if truthy input.has_authoritative_rejection
    then decide_terminal_rejected "Invalid signed XML was authoritatively rejected by Hacienda."
    else decide_manual_review "Invalid signed XML requires correction outside blind retry." keep
classify_kind invalid_clave input =
    decide_manual_review
      "Invalid Clave requires operator review unless official rejection is authoritative." keep
classify_kind unauthorized_company input =
    decide_manual_review "Unauthorized taxpayer/company credentials require operator correction."
      invalidate
classify_kind authoritative_rejection input =
    decide_terminal_rejected "Hacienda authoritative rejected status is terminal."
classify_kind already_received_or_duplicate input =
    decide_reconcile
      "Duplicate/already received semantics must be resolved by querying the same Clave."
classify_kind status_processing input = record {
  action = poll;
  next_status = processing;
  should_retry = true;
  should_reconcile_before_retry = false;
  is_final = false;
  requires_manual_intervention = false;
  token_cache_action = keep;
  backoff_strategy = polling;
  reason = "Official recibido/procesando status remains non-terminal and should continue polling.";
}
classify_kind status_not_found input =
    if truthy input.is_definitely_not_submitted
    then decide_retry
        "Status not found is retryable only when the document definitely was not submitted."
    else decide_reconcile
        "Ambiguous not-found status requires repeated reconciliation or manual review horizon."
classify_kind provider_error_or_unknown_status input =
    decide_manual_review
      "Provider error or unknown status cannot be mapped to terminal fiscal outcome." keep
classify_kind worker_crash input =
    if is_possibly_sent input.provider_send_state || is_sent input.provider_send_state
    then decide_reconcile "Worker crash after possible POST requires reconciliation by Clave."
    else decide_retry "Worker crash before POST can be retried through the queue."
classify_kind local_error_before_post input =
    decide_retry "Local DB/storage error before POST is retryable if transient."
classify_kind local_error_after_post input =
    decide_reconcile "Local persistence failure after POST requires reconciliation by Clave."

unfoldable pub classify : RetryClassifierInput → RetryClassifierDecision
unfolding classify_kind
classify input = classify_kind input.failure_kind input
