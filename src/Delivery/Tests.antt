-- ===== src/Delivery/Tests.antt =====
-- Runs of the theorems on deliveries.
use mathlib.Core.Option
use billing_api.Common.{
  ◌+◌, ◌≤◌, true, false, not, ◌&&◌, [], ◌∷◌, none, some, codes, length, leb, if◌then◌else◌, ◌≡◌,
  refl, arith,
}
use billing_api.Delivery.StateMachine.{
  initial_document, queued, delivered, retry_pending, failed, can_manual_resend, has,
}
use billing_api.Delivery.RetryClassifier.{DeliveryErrorInput, network_timeout}
use billing_api.Delivery.Worker.{
  DocumentDelivery, Db, Tried, threw, refused, hash_mismatch, is_claimable, process_delivery,
}
use billing_api.Delivery.Worker.Outcomes.{
  Ends, is_delivered_mail, is_missing, append_option, security_event, process_delivery_settles,
  process_delivery_refused,
}
use billing_api.Delivery.Worker.Horizon.{Run, run_all, run_all_bounded}

abbrev row : DocumentDelivery
row = record {
  id = codes "d";
  kind = initial_document;
  status = queued;
  attempt_count = 0;
  last_attempt_at = none;
  next_attempt_at = none;
  delivered_at = none;
  last_error_code = none;
  last_sanitized_error = none;
  provider_message_id = none;
}

abbrev db : Db
db = record { delivery = some row; attempts = []; audits = [] }

abbrev done : DocumentDelivery
done = record row { status = delivered }

abbrev done_db : Db
done_db = record { delivery = some done; attempts = []; audits = [] }

abbrev timeout : Tried
timeout = threw (codes "timeout")

claimable : is_claimable row.status ≡ true
unfolding has
claimable = refl

process_delivery_settles_example :
    Ends
      (process_delivery 0 0 (codes "a") (λ d. d) (λ d. d) timeout db).delivery
      1
      (is_delivered_mail timeout)
process_delivery_settles_example =
    process_delivery_settles 0 0 (codes "a") timeout db row refl claimable

process_delivery_refused_example :
    let db' =
      process_delivery 0 0 (codes "a") (λ d. d) (λ d. d) (refused hash_mismatch (codes "m")) db in
    (Option.map (λ r. r.status) db'.delivery
      ≡ some (if is_missing hash_mismatch && not (leb 8 0) then retry_pending else failed))
    × (db'.audits ≡ append_option [] (security_event hash_mismatch))
process_delivery_refused_example =
    process_delivery_refused 0 0 (codes "a") (codes "m") hash_mismatch db row refl claimable

abbrev run : Run
run = record { jitter = 0; now = 0; attempt_id = codes "a"; tried = timeout }

run_all_bounded_example :
    (row' : DocumentDelivery) × ((run_all (run ∷ run ∷ []) db).delivery ≡ some row')
    × (row'.attempt_count ≤ 9)
    × (9 ≤ length (run ∷ run ∷ []) + 0 → is_claimable row'.status ≡ false)
run_all_bounded_example = run_all_bounded (run ∷ run ∷ []) db row refl (omega arith)

abbrev exhausted : DeliveryErrorInput
exhausted = record {
  error_class = network_timeout;
  retry_count = 8;
  max_retries = 8;
  already_delivered = none;
}

resendable : can_manual_resend failed ≡ true
unfolding can_manual_resend
resendable = refl
