-- ===== src/Delivery/Worker.antt =====
-- application/delivery/delivery-worker.service.ts: one run of the delivery job, on the row of its
-- delivery, the rows of its attempts and the audit log. The queries name the row by its id, so the
-- other rows of the tables play no part.
--
-- Not under the model: the loading of the attachments and the mail itself. What the `try` block
-- came to is the argument `tried`. What other workers do to the row between the read and the claim,
-- and between the claim and the last write, are the functions `before` and `during`.
pub mod Outcomes
pub mod Horizon
use billing_api.Common.{
  ℕ, ◌+◌, ◌*◌, Bool, true, false, ◌||◌, not, List, [], ◌∷◌, ◌++◌, Option, none, some, Text, codes,
  eq_text, contains_text, take, ◌==◌, if◌then◌else◌,
}
use billing_api.Delivery.StateMachine.{
  DocumentDeliveryStatus, DocumentDeliveryKind, sending, queued, retry_pending, delivered, same,
  has,
}
use billing_api.Delivery.RetryClassifier.{
  DeliveryErrorClass, unknown_external_outcome, artifact_hash_mismatch, artifact_missing,
  artifact_corrupt, artifact_wrong_version, historical_mock, transient_provider_failure,
  permanent_provider_rejection, provider_rate_limit, unknown_provider_response,
  DeliveryClassificationResult, classify,
}

pub record DocumentDelivery : Type 0 where
  pub id : Text
  pub kind : DocumentDeliveryKind
  pub status : DocumentDeliveryStatus
  pub attempt_count : ℕ
  pub last_attempt_at : Option ℕ
  pub next_attempt_at : Option ℕ
  pub delivered_at : Option ℕ
  pub last_error_code : Option Text
  pub last_sanitized_error : Option Text
  pub provider_message_id : Option Text

pub record DeliveryAttempt : Type 0 where
  pub id : Text
  pub attempt_number : ℕ
  pub status : DocumentDeliveryStatus
  pub error_code : Option Text
  pub sanitized_error : Option Text
  pub started_at : ℕ
  pub completed_at : Option ℕ
  pub provider_message_id : Option Text

-- The actions that a run records: `fiscal-delivery.delivered.…` as FISCAL_AUDIT, and
-- `fiscal-delivery.artifact-integrity-failure` as SECURITY.
pub data AuditEvent : Type 0 where
  delivered_event : DocumentDeliveryKind → AuditEvent
  integrity_failure : DeliveryErrorClass → AuditEvent

pub record Db : Type 0 where
  pub delivery : Option DocumentDelivery
  pub attempts : List DeliveryAttempt
  pub audits : List AuditEvent

pub data EmailDeliveryOutcome : Type 0 where
  delivered_outcome transient_failure permanent_failure rate_limited unknown : EmailDeliveryOutcome

pub record SendEmailResult : Type 0 where
  pub outcome : EmailDeliveryOutcome
  pub provider_message_id : Option Text
  pub sanitized_error_code : Option Text
  pub sanitized_error_message : Option Text

-- The codes of `FiscalPdfArtifactPolicyException`.
pub data PolicyCode : Type 0 where
  legacy_pdf_unavailable missing invalid_structure oversized wrong_version hash_mismatch :
      PolicyCode

abbrev pub policy_text : PolicyCode → Text
policy_text legacy_pdf_unavailable = codes "LEGACY_PDF_UNAVAILABLE"
policy_text missing = codes "ARTIFACT_MISSING"
policy_text invalid_structure = codes "PDF_INVALID_STRUCTURE"
policy_text oversized = codes "PDF_OVERSIZED"
policy_text wrong_version = codes "ARTIFACT_WRONG_VERSION"
policy_text hash_mismatch = codes "ARTIFACT_HASH_MISMATCH"

-- What the `try` block came to: a result of the mail port, a refusal of the artifact policy with
-- its message, or another error with its message.
pub data Tried : Type 0 where
  mailed : SendEmailResult → Tried
  refused : PolicyCode → Text → Tried
  threw : Text → Tried

abbrev pub default_max_delivery_retries : ℕ
default_max_delivery_retries = 8

-- `errorCode === …`, false of an absent code.
abbrev is_code : Option Text → Text → Bool
is_code none t = false
is_code (some s) t = eq_text s t

abbrev outcome_class : EmailDeliveryOutcome → DeliveryErrorClass
outcome_class transient_failure = transient_provider_failure
outcome_class permanent_failure = permanent_provider_rejection
outcome_class rate_limited = provider_rate_limit
outcome_class _ = unknown_provider_response

unfoldable pub map_outcome_to_error_class : EmailDeliveryOutcome → Option Text → DeliveryErrorClass
map_outcome_to_error_class outcome error_code =
    if is_code error_code (codes "UNKNOWN_EXTERNAL_OUTCOME")
    then unknown_external_outcome
    else if is_code error_code (codes "ARTIFACT_HASH_MISMATCH")
    then artifact_hash_mismatch
    else if is_code error_code (codes "ARTIFACT_MISSING")
    then artifact_missing
    else if is_code error_code (codes "PDF_INVALID_STRUCTURE")
    then artifact_corrupt
    else if is_code error_code (codes "PDF_OVERSIZED")
    then artifact_corrupt
    else if is_code error_code (codes "ARTIFACT_WRONG_VERSION")
    then artifact_wrong_version
    else if is_code error_code (codes "LEGACY_PDF_UNAVAILABLE")
    then historical_mock
    else outcome_class outcome

-- `updateMany` on the row, with the statuses that it leaves alone or takes.
abbrev update_if : (DocumentDeliveryStatus → Bool) → (DocumentDelivery → DocumentDelivery) → Db → Db
update_if test f db = elim db.delivery [
  | none ↦ db
  | some row ↦ if test row.status then record db { delivery = some (f row) } else db
]

abbrev is_delivered : DocumentDeliveryStatus → Bool
is_delivered s = same s delivered

abbrev pub is_claimable : DocumentDeliveryStatus → Bool
is_claimable s = has (queued ∷ retry_pending ∷ []) s

update_attempt :
    Text → (DeliveryAttempt → DeliveryAttempt) → List DeliveryAttempt → List DeliveryAttempt
update_attempt id f [] = []
update_attempt id f (a ∷ as') = (if eq_text a.id id then f a else a) ∷ update_attempt id f as'

abbrev cut : ℕ → Option Text → Option Text
cut n none = none
cut n (some t) = some (take n t)

-- `retryDelaySeconds ? new Date(…) : null`
abbrev due_at : ℕ → Option ℕ → Option ℕ
due_at now none = none
due_at now (some d) = if d == 0 then none else some (now + d * 1000)

-- The data that the two branches write to the row.
abbrev pub failed_row :
    ℕ
    → DeliveryClassificationResult
    → ℕ
    → Option Text
    → Option Text
    → DocumentDelivery
    → DocumentDelivery
failed_row now classification attempt_number error_code error_message row = record row {
  status = classification.next_status;
  last_error_code = cut 120 error_code;
  last_sanitized_error = cut 500 error_message;
  next_attempt_at = due_at now classification.retry_delay_seconds;
  attempt_count = attempt_number;
  last_attempt_at = some now;
}

abbrev pub delivered_row : ℕ → SendEmailResult → ℕ → DocumentDelivery → DocumentDelivery
delivered_row now result attempt_number row = record row {
  status = delivered;
  delivered_at = some now;
  provider_message_id = result.provider_message_id;
  last_error_code = none;
  last_sanitized_error = none;
  attempt_count = attempt_number;
  last_attempt_at = some now;
}

-- The classification that `handleFailure` asks for.
unfoldable pub failure_classification :
    ℕ → ℕ → EmailDeliveryOutcome → Option Text → DeliveryClassificationResult
unfolding map_outcome_to_error_class
failure_classification jitter count outcome error_code = classify jitter (record {
  error_class = map_outcome_to_error_class outcome error_code;
  retry_count = count;
  max_retries = default_max_delivery_retries;
  already_delivered = none;
})

-- The class that the `catch` block gives an error which is no policy error.
abbrev pub thrown_class : Text → Text
thrown_class message =
    if contains_text message (codes "timeout") || contains_text message (codes "ETIMEDOUT")
    then codes "NETWORK_TIMEOUT"
    else codes "UNKNOWN_PROVIDER_RESPONSE"

module _ (jitter now : ℕ) (attempt_id : Text) where
  unfoldable pub handle_failure :
      DocumentDelivery → ℕ → EmailDeliveryOutcome → Option Text → Option Text → Db → Db
  unfolding has update_attempt failure_classification
  handle_failure seen attempt_number outcome error_code error_message db =
      let error_class = map_outcome_to_error_class outcome error_code in
      let classification : DeliveryClassificationResult =
        failure_classification jitter seen.attempt_count outcome error_code in
      let db₁ : Db =
        update_if (λ s. not (is_delivered s))
          (failed_row now classification attempt_number error_code error_message) db in
      let settled : List DeliveryAttempt =
        update_attempt attempt_id
          (λ a. record a {
            status = classification.next_status;
            error_code = cut 120 error_code;
            sanitized_error = cut 500 error_message;
            completed_at = some now;
          })
          db₁.attempts in
      record db₁ {
        attempts = settled;
        audits =
            if classification.emit_security_audit
            then db₁.audits ++ integrity_failure error_class ∷ []
            else db₁.audits;
      }

  -- The branch of a mail that was delivered.
  unfoldable pub handle_delivered : DocumentDelivery → ℕ → SendEmailResult → Db → Db
  unfolding has update_attempt
  handle_delivered seen attempt_number result db =
      let db₁ : Db =
        update_if (λ s. not (is_delivered s)) (delivered_row now result attempt_number) db in
      record db₁ {
        attempts =
            update_attempt attempt_id
              (λ a. record a {
                status = delivered;
                provider_message_id = result.provider_message_id;
                completed_at = some now;
              })
              db₁.attempts;
        audits = db₁.audits ++ delivered_event seen.kind ∷ [];
      }

  -- The two branches on the outcome of a mail that was sent.
  settle_mail : EmailDeliveryOutcome → DocumentDelivery → ℕ → SendEmailResult → Db → Db
  unfolding handle_failure handle_delivered
  settle_mail delivered_outcome seen n result db = handle_delivered seen n result db
  settle_mail unknown seen n result db =
      handle_failure seen n unknown (some (codes "UNKNOWN_EXTERNAL_OUTCOME"))
        result.sanitized_error_message db
  settle_mail other seen n result db =
      handle_failure seen n other result.sanitized_error_code result.sanitized_error_message db

  -- What follows the `try` block, in the order of its cases.
  unfoldable pub settle : DocumentDelivery → ℕ → Tried → Db → Db
  unfolding settle_mail
  settle seen n (mailed result) db = settle_mail result.outcome seen n result db
  settle seen n (refused code message) db =
      handle_failure seen n unknown (some (policy_text code)) (some (take 200 message)) db
  settle seen n (threw message) db =
      handle_failure seen n unknown (some (thrown_class message)) (some (take 200 message)) db

  -- The claim: `SENDING` only from `QUEUED` and `RETRY_PENDING`, and whether the row was taken.
  unfoldable pub claim : Db → Db × Bool
  unfolding has
  claim db = elim db.delivery [
    | none ↦ (db, false)
    | some row ↦
        if is_claimable row.status
        then (
          record db {
            delivery = some (record row { status = sending; last_attempt_at = some now });
          },
          true,
        )
        else (db, false)
  ]

  -- The attempt that a claimed run opens.
  unfoldable pub open_attempt : ℕ → Db → Db
  open_attempt n db = record db {
    attempts =
        db.attempts
        ++ record {
          id = attempt_id;
          attempt_number = n;
          status = sending;
          error_code = none;
          sanitized_error = none;
          started_at = now;
          completed_at = none;
          provider_message_id = none;
        }
          ∷ [];
  }

  module _ (before during : Db → Db) where
    -- `before` acts between the read and the claim, `during` while the mail is sent.
    unfoldable pub run_claimed : DocumentDelivery → Tried → Db × Bool → Db
    unfolding settle open_attempt
    run_claimed seen tried (db, false) = db
    run_claimed seen tried (db, true) =
        let n = seen.attempt_count + 1 in settle seen n tried (during (open_attempt n db))

    unfoldable pub process_delivery : Tried → Db → Db
    unfolding run_claimed claim
    process_delivery tried db = elim db.delivery [
      | none ↦ db
      | some seen ↦
          if is_delivered seen.status then db else run_claimed seen tried (claim (before db))
    ]
