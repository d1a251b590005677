-- ===== src/Delivery/StateMachine.antt =====
-- domain/delivery/document-delivery-state-machine.ts, document-delivery-status.enum.ts and
-- document-delivery-kind.enum.ts. The reason of a refusal is the text of its template.
use Prim.Native.String.{◌++◌}
use billing_api.Common.{
  ℕ, Bool, false, ◌||◌, not, List, [], ◌∷◌, String, Option, none, some, ◌==◌, if◌then◌else◌,
}

pub data DocumentDeliveryStatus : Type 0 where
  pending queued sending delivered : DocumentDeliveryStatus
  retry_pending failed manual_review_required cancelled : DocumentDeliveryStatus

pub data DocumentDeliveryKind : Type 0 where
  initial_document hacienda_response accepted_fiscal_package : DocumentDeliveryKind

-- The value of the enum, as templates print it.
unfoldable pub status_text : DocumentDeliveryStatus → String
status_text pending = "PENDING"
status_text queued = "QUEUED"
status_text sending = "SENDING"
status_text delivered = "DELIVERED"
status_text retry_pending = "RETRY_PENDING"
status_text failed = "FAILED"
status_text manual_review_required = "MANUAL_REVIEW_REQUIRED"
status_text cancelled = "CANCELLED"

abbrev pub index : DocumentDeliveryStatus → ℕ
index pending = 0
index queued = 1
index sending = 2
index delivered = 3
index retry_pending = 4
index failed = 5
index manual_review_required = 6
index cancelled = 7

abbrev pub same : DocumentDeliveryStatus → DocumentDeliveryStatus → Bool
same s t = index s == index t

unfoldable pub has : List DocumentDeliveryStatus → DocumentDeliveryStatus → Bool
has [] s = false
has (t ∷ ts) s = same t s || has ts s

pub data TransitionOutcome : Type 0 where
  allowed ignored_stale_terminal refused : TransitionOutcome

pub record TransitionResult : Type 0 where
  pub outcome : TransitionOutcome
  pub reason : Option String

unfoldable pub allowed_transitions : DocumentDeliveryStatus → List DocumentDeliveryStatus
allowed_transitions pending = queued ∷ []
allowed_transitions queued = sending ∷ []
allowed_transitions sending = delivered ∷ retry_pending ∷ failed ∷ manual_review_required ∷ []
allowed_transitions retry_pending = queued ∷ failed ∷ []
allowed_transitions failed = queued ∷ []
allowed_transitions manual_review_required = queued ∷ []
allowed_transitions delivered = queued ∷ []
allowed_transitions cancelled = []

abbrev pub terminal_states : List DocumentDeliveryStatus
terminal_states = delivered ∷ []

unfoldable pub evaluate_transition :
    DocumentDeliveryKind → DocumentDeliveryStatus → DocumentDeliveryStatus → TransitionResult
unfolding has allowed_transitions
evaluate_transition _kind current next =
    if has terminal_states current
    then record {
      outcome = ignored_stale_terminal;
      reason = some (
          "Delivery is in terminal state "
          ++ status_text current
          ++ "; transition to "
          ++ status_text next
          ++ " ignored.");
    }
    else if not (has (allowed_transitions current) next)
    then record {
      outcome = refused;
      reason = some (
          "Transition from "
          ++ status_text current
          ++ " to "
          ++ status_text next
          ++ " is not allowed in delivery state machine.");
    }
    else record { outcome = allowed; reason = none }

unfoldable pub can_manual_resend : DocumentDeliveryStatus → Bool
can_manual_resend current = not (same current cancelled)
