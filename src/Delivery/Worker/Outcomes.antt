-- ===== src/Delivery/Worker/Outcomes.antt =====
-- What one run of the delivery job leaves behind: the guard of delivered rows, the status in which a
-- claimed run ends, and which failures raise a security event.
use billing_api.Common.{
  ℕ, ◌+◌, ◌≤◌, Bool, true, false, ◌&&◌, not, List, [], ◌∷◌, ◌++◌, Option, none, some, Text, codes,
  eq_text, take, ◌≡◌, refl, ◌↔◌, arith, if◌then◌else◌, leb,
}
use billing_api.Delivery.StateMachine.{
  DocumentDeliveryStatus, sending, retry_pending, delivered, failed, manual_review_required, has,
}
use billing_api.Delivery.RetryClassifier.{
  artifact_hash_mismatch, artifact_corrupt, historical_mock, DeliveryClassificationResult, classify,
}
use billing_api.Delivery.Worker.{
  DocumentDelivery, Db, AuditEvent, integrity_failure, SendEmailResult, EmailDeliveryOutcome,
  delivered_outcome, unknown, PolicyCode, legacy_pdf_unavailable, missing, invalid_structure,
  oversized, hash_mismatch, Tried, mailed, refused, threw, is_claimable, thrown_class,
  handle_failure, handle_delivered, failure_classification, failed_row, delivered_row, settle,
  settle_mail, policy_text, open_attempt, process_delivery,
}
use mathlib.Core.Option

module _ (jitter now : ℕ) (attempt_id : Text) where
  handle_failure-delivered :
      (seen : DocumentDelivery) (n : ℕ) (outcome : EmailDeliveryOutcome)
      (code message : Option Text) (db : Db) (row : DocumentDelivery)
      → db.delivery ≡ some row
      → row.status ≡ delivered
      → (handle_failure jitter now attempt_id seen n outcome code message db).delivery ≡ some row
  unfolding handle_failure
  handle_failure-delivered seen n outcome code message db row e d = ground arith

  -- A row that another worker has delivered meanwhile is left as it is, whatever this run came to.
  settle-delivered :
      (seen : DocumentDelivery) (n : ℕ) (tried : Tried) (db : Db) (row : DocumentDelivery)
      → db.delivery ≡ some row
      → row.status ≡ delivered
      → (settle jitter now attempt_id seen n tried db).delivery ≡ some row
  unfolding settle
  settle-delivered seen n (mailed result) db row e d = ground arith
  settle-delivered seen n (refused code message) db row e d = ground arith
  settle-delivered seen n (threw message) db row e d = ground arith

-- The statuses in which a run may leave the row that it claimed.
abbrev pub is_settled : DocumentDeliveryStatus → Bool
is_settled s = has (delivered ∷ retry_pending ∷ failed ∷ manual_review_required ∷ []) s

abbrev pub is_delivered_outcome : EmailDeliveryOutcome → Bool
is_delivered_outcome delivered_outcome = true
is_delivered_outcome _ = false

abbrev pub is_delivered_mail : Tried → Bool
is_delivered_mail (mailed result) = is_delivered_outcome result.outcome
is_delivered_mail _ = false

-- The statuses that a failure leads to.
abbrev is_failure : DocumentDeliveryStatus → Bool
is_failure s = has (retry_pending ∷ failed ∷ manual_review_required ∷ []) s

failure_settles :
    (jitter count : ℕ) (outcome : EmailDeliveryOutcome) (code : Option Text)
    → is_failure (failure_classification jitter count outcome code).next_status ≡ true
unfolding classify failure_classification has
failure_settles jitter count outcome code = ground arith

failure_horizon :
    (jitter count : ℕ) (outcome : EmailDeliveryOutcome) (code : Option Text)
    → (failure_classification jitter count outcome code).next_status ≡ retry_pending
    → count ≤ 7
unfolding classify failure_classification
failure_horizon jitter count outcome code = ground arith

-- The row that a run leaves with its `n`-th attempt, and what is said of it.
abbrev pub Ends : Option DocumentDelivery → ℕ → Bool → Type 0
Ends o n sent =
    (row : DocumentDelivery) × (o ≡ some row)
    × (row.attempt_count ≡ n)
    × (is_settled row.status ≡ true)
    × ((row.status ≡ delivered) ↔ (sent ≡ true))
    × (row.status ≡ retry_pending → n ≤ 8)

module _ (jitter now : ℕ) (attempt_id : Text) where
  handle_failure-Ends :
      (seen : DocumentDelivery) (n : ℕ) (outcome : EmailDeliveryOutcome)
      (code message : Option Text) (db : Db) (row : DocumentDelivery)
      → db.delivery ≡ some row
      → row.status ≡ sending
      → n ≡ seen.attempt_count + 1
      → Ends (handle_failure jitter now attempt_id seen n outcome code message db).delivery n false
  unfolding handle_failure has
  handle_failure-Ends seen n outcome code message db row e d k =
      let c : DeliveryClassificationResult =
        failure_classification jitter seen.attempt_count outcome code in
      let f : is_failure c.next_status ≡ true =
        failure_settles jitter seen.attempt_count outcome code in
      (
        failed_row now c n code message row,
        ground arith,
        refl,
        ground arith,
        ground arith,
        λ r. omega (arith, failure_horizon jitter seen.attempt_count outcome code r),
      )

  settle_mail-Ends :
      (outcome : EmailDeliveryOutcome) (seen : DocumentDelivery) (n : ℕ) (result : SendEmailResult)
      (db : Db) (row : DocumentDelivery)
      → db.delivery ≡ some row
      → row.status ≡ sending
      → n ≡ seen.attempt_count + 1
      → Ends
          (settle_mail jitter now attempt_id outcome seen n result db).delivery
          n
          (is_delivered_outcome outcome)
  unfolding settle_mail has handle_delivered
  settle_mail-Ends delivered_outcome seen n result db row e d k =
      (delivered_row now result n row, ground arith, refl, refl, ground arith, λ r. cc)
  settle_mail-Ends unknown seen n result db row e d k =
      handle_failure-Ends seen n unknown (some (codes "UNKNOWN_EXTERNAL_OUTCOME"))
        result.sanitized_error_message db row e d k
  settle_mail-Ends other seen n result db row e d k =
      handle_failure-Ends seen n other result.sanitized_error_code result.sanitized_error_message db
        row e d k

  settle-Ends :
      (seen : DocumentDelivery) (n : ℕ) (tried : Tried) (db : Db) (row : DocumentDelivery)
      → db.delivery ≡ some row
      → row.status ≡ sending
      → n ≡ seen.attempt_count + 1
      → Ends (settle jitter now attempt_id seen n tried db).delivery n (is_delivered_mail tried)
  unfolding settle
  settle-Ends seen n (mailed result) db row e d k =
      settle_mail-Ends result.outcome seen n result db row e d k
  settle-Ends seen n (refused code message) db row e d k =
      handle_failure-Ends seen n unknown (some (policy_text code)) (some (take 200 message)) db row
        e d k
  settle-Ends seen n (threw message) db row e d k =
      handle_failure-Ends seen n unknown (some (thrown_class message)) (some (take 200 message)) db
        row e d k

  -- The state in which the mail of a claimed run is sent.
  abbrev pub claimed : DocumentDelivery → Db → Db
  claimed row db =
      open_attempt jitter now attempt_id (row.attempt_count + 1) (record db {
        delivery = some (record row { status = sending; last_attempt_at = some now });
      })

  pub process_claimable :
      (tried : Tried) (db : Db) (row : DocumentDelivery)
      → db.delivery ≡ some row
      → is_claimable row.status ≡ true
      → process_delivery jitter now attempt_id (λ d. d) (λ d. d) tried db
        ≡ settle jitter now attempt_id row (row.attempt_count + 1) tried (claimed row db)
  unfolding process_delivery has
  process_claimable tried db row e h = ground arith

-- A claimed run with no interference counts one attempt more, and leaves the row in a settled
-- status, which is `DELIVERED` exactly if the mail was, never `SENDING` or `QUEUED`, and `RETRY_PENDING` only up
-- to the eighth attempt.
pub process_delivery_settles :
    (jitter now : ℕ) (attempt_id : Text) (tried : Tried) (db : Db) (row : DocumentDelivery)
    → db.delivery ≡ some row
    → is_claimable row.status ≡ true
    → Ends
        (process_delivery jitter now attempt_id (λ d. d) (λ d. d) tried db).delivery
        (row.attempt_count + 1)
        (is_delivered_mail tried)
unfolding open_attempt
process_delivery_settles jitter now attempt_id tried db row e h =
    rw (process_claimable jitter now attempt_id tried db row e h) (
      settle-Ends jitter now attempt_id row (row.attempt_count + 1) tried
        (claimed jitter now attempt_id row db)
        (record row { status = sending; last_attempt_at = some now }) refl refl refl)

-- The security event of a refusal of the artifact policy, if it has one.
abbrev pub security_event : PolicyCode → Option AuditEvent
security_event hash_mismatch = some (integrity_failure artifact_hash_mismatch)
security_event invalid_structure = some (integrity_failure artifact_corrupt)
security_event oversized = some (integrity_failure artifact_corrupt)
security_event legacy_pdf_unavailable = some (integrity_failure historical_mock)
security_event _ = none

abbrev pub is_missing : PolicyCode → Bool
is_missing missing = true
is_missing _ = false

abbrev pub append_option : List AuditEvent → Option AuditEvent → List AuditEvent
append_option events none = events
append_option events (some e) = events ++ e ∷ []

-- A run on a claimable row, with no interference, in which the artifact policy refuses: the row of a
-- missing artifact is retried while it has fewer than eight attempts, and any other refusal fails the
-- delivery at once; exactly a changed, broken, oversized or mock artifact appends a security event to
-- the log.
pub process_delivery_refused :
    (jitter now : ℕ) (attempt_id message : Text) (code : PolicyCode) (db : Db)
    (row : DocumentDelivery)
    → db.delivery ≡ some row
    → is_claimable row.status ≡ true
    → let db' =
        process_delivery jitter now attempt_id (λ d. d) (λ d. d) (refused code message) db in
      (Option.map (λ r. r.status) db'.delivery
        ≡ some (if is_missing code && not (leb 8 row.attempt_count) then retry_pending else failed))
      × (db'.audits ≡ append_option db.audits (security_event code))
unfolding open_attempt settle handle_failure failure_classification classify eq_text
process_delivery_refused jitter now attempt_id message code db row e h =
    rw (process_claimable jitter now attempt_id (refused code message) db row e h)
      (ground arith, ground arith)
