-- ===== src/Delivery/Transitions.antt =====
-- What the delivery state machine allows: its diagram as a relation, and the paths that are closed.
use billing_api.Common.{true, List, [], ◌∷◌, ◌≡◌, refl, ◌≢◌, ◌↔◌, arith}
use billing_api.Delivery.StateMachine.{
  DocumentDeliveryStatus, DocumentDeliveryKind, pending, queued, sending, delivered, retry_pending,
  failed, manual_review_required, allowed, evaluate_transition, can_manual_resend,
}

infix 40 ◌⟶◌
pub data ◌⟶◌ : DocumentDeliveryStatus → DocumentDeliveryStatus → Type 0 where
  enqueue : pending ⟶ queued
  send : queued ⟶ sending
  deliver : sending ⟶ delivered
  postpone : sending ⟶ retry_pending
  fail : sending ⟶ failed
  escalate : sending ⟶ manual_review_required
  retry : retry_pending ⟶ queued
  exhaust : retry_pending ⟶ failed
  resend : failed ⟶ queued
  resolve : manual_review_required ⟶ queued

ruleset arrows = (enqueue, send, deliver, postpone, fail, escalate, retry, exhaust, resend, resolve)

arrow_of_allowed :
    (kind : DocumentDeliveryKind) (current next : DocumentDeliveryStatus)
    → (evaluate_transition kind current next).outcome ≡ allowed
    → current ⟶ next
unfolding evaluate_transition
arrow_of_allowed kind current next h = grind (arith, arrows)

allowed_of_arrow :
    (kind : DocumentDeliveryKind) {current next : DocumentDeliveryStatus}
    → current ⟶ next
    → (evaluate_transition kind current next).outcome ≡ allowed
unfolding evaluate_transition
allowed_of_arrow kind enqueue = refl
allowed_of_arrow kind _ = refl

-- For every kind, a transition is allowed exactly along an arrow of the diagram, in which nothing
-- leaves `DELIVERED` or `CANCELLED`.
evaluate_transition-allowed_iff :
    (kind : DocumentDeliveryKind) (current next : DocumentDeliveryStatus)
    → ((evaluate_transition kind current next).outcome ≡ allowed) ↔ (current ⟶ next)
evaluate_transition-allowed_iff kind current next =
    (arrow_of_allowed kind current next, allowed_of_arrow kind)

unfoldable pub move :
    DocumentDeliveryKind → DocumentDeliveryStatus → DocumentDeliveryStatus → DocumentDeliveryStatus
unfolding evaluate_transition
move kind current next = elim (evaluate_transition kind current next).outcome [
  | allowed ↦ next
  | _ ↦ current
]

-- Late workers: each asks for a status, and the current one changes only if that is allowed.
unfoldable pub moves :
    DocumentDeliveryKind
    → DocumentDeliveryStatus
    → List DocumentDeliveryStatus
    → DocumentDeliveryStatus
unfolding move
moves kind current [] = current
moves kind current (next ∷ rest) = moves kind (move kind current next) rest

move-delivered :
    (kind : DocumentDeliveryKind) (next : DocumentDeliveryStatus)
    → move kind delivered next ≡ delivered
unfolding move
move-delivered kind next = ground arith

-- No sequence of requested statuses makes a delivered document regress.
moves-delivered :
    (kind : DocumentDeliveryKind) (rest : List DocumentDeliveryStatus)
    → moves kind delivered rest ≡ delivered
unfolding moves
moves-delivered kind [] = refl
moves-delivered kind (next ∷ rest) = rw (move-delivered kind next) (moves-delivered kind rest)

-- A manual resend is admitted in every status but `CANCELLED`, and the machine then lets the
-- delivery be queued exactly if it is neither under way (`QUEUED`, `SENDING`) nor `DELIVERED`.
resend-allowed_iff :
    (kind : DocumentDeliveryKind) (current : DocumentDeliveryStatus)
    → can_manual_resend current ≡ true
    → ((evaluate_transition kind current queued).outcome ≡ allowed)
      ↔ ((current ≢ queued) × (current ≢ sending) × (current ≢ delivered))
unfolding can_manual_resend evaluate_transition
resend-allowed_iff kind current h = ground arith
