-- ===== src/Submission/Lifecycle.antt =====
-- The lifecycle that the transition table of a fiscal submission draws: its diagram as a relation,
-- and what holds of every sequence of evaluated transitions.
use billing_api.Common.{
  Bool, true, false, List, [], ◌∷◌, ◌≡◌, refl, ◌≢◌, ◌↔◌, ◌⊎◌, inl, inr, arith, Bool-cases,
}
use billing_api.Submission.StateMachine.{
  FiscalSubmissionStatus, requested, queued, submitting, post_outcome_unknown, acknowledged,
  processing, accepted, rejected, technical_retry_pending, manual_review_required, superseded, same,
  applied, is_terminal, has, can_transition, evaluate_transition,
}

-- The diagram: one constructor for each arrow.
infix 40 ◌⟶◌
pub data ◌⟶◌ : FiscalSubmissionStatus → FiscalSubmissionStatus → Type 0 where
  enqueue : requested ⟶ queued
  claim : queued ⟶ submitting
  receipt : submitting ⟶ acknowledged
  accept_now : submitting ⟶ accepted
  reject_now : submitting ⟶ rejected
  lose_outcome : submitting ⟶ post_outcome_unknown
  fail : submitting ⟶ technical_retry_pending
  escalate : submitting ⟶ manual_review_required
  found : post_outcome_unknown ⟶ processing
  found_accepted : post_outcome_unknown ⟶ accepted
  found_rejected : post_outcome_unknown ⟶ rejected
  not_found : post_outcome_unknown ⟶ manual_review_required
  progress : acknowledged ⟶ processing
  accept_receipt : acknowledged ⟶ accepted
  reject_receipt : acknowledged ⟶ rejected
  fail_receipt : acknowledged ⟶ technical_retry_pending
  accept : processing ⟶ accepted
  reject : processing ⟶ rejected
  fail_processing : processing ⟶ technical_retry_pending
  retry : technical_retry_pending ⟶ queued
  requeue : manual_review_required ⟶ queued
  reopen : manual_review_required ⟶ post_outcome_unknown

ruleset arrows = (
  enqueue, claim, receipt, accept_now, reject_now, lose_outcome, fail, escalate, found,
  found_accepted, found_rejected, not_found, progress, accept_receipt, reject_receipt, fail_receipt,
  accept, reject, fail_processing, retry, requeue, reopen,
)

pub same_sound : (from to : FiscalSubmissionStatus) → same from to ≡ true → from ≡ to
same_sound from to h = ground arith

pub same_self : (s : FiscalSubmissionStatus) → same s s ≡ true
same_self s = ground arith

arrow_of_table :
    (from to : FiscalSubmissionStatus)
    → same from to ≡ false
    → can_transition from to ≡ true
    → from ⟶ to
unfolding can_transition
arrow_of_table from to d h = grind (arith, arrows)

arrow_applied :
    {from to : FiscalSubmissionStatus} → from ⟶ to → (evaluate_transition from to).outcome ≡ applied
unfolding evaluate_transition
arrow_applied enqueue = refl
arrow_applied _ = refl

applied_split :
    (from to : FiscalSubmissionStatus)
    → (evaluate_transition from to).outcome ≡ applied
    → (from ≡ to) ⊎ (from ⟶ to)
unfolding evaluate_transition
applied_split from to h = elim (Bool-cases (same from to)) [
  | inl e ↦ inl (same_sound from to e)
  | inr e ↦ inr (arrow_of_table from to e (ground arith))
]

applied_join :
    (from to : FiscalSubmissionStatus)
    → (from ≡ to) ⊎ (from ⟶ to)
    → (evaluate_transition from to).outcome ≡ applied
unfolding evaluate_transition
applied_join from to (inl e) = rw (← e) (rw (same_self from))
applied_join from to (inr a) = arrow_applied a

-- An evaluated transition is applied exactly when it repeats the status or follows an arrow of the
-- diagram.
pub evaluate_transition-applied_iff :
    (from to : FiscalSubmissionStatus)
    → ((evaluate_transition from to).outcome ≡ applied) ↔ ((from ≡ to) ⊎ (from ⟶ to))
evaluate_transition-applied_iff from to = (applied_split from to, applied_join from to)

-- What a requested status makes of the current one: it moves if the transition is applied.
unfoldable pub move : FiscalSubmissionStatus → FiscalSubmissionStatus → FiscalSubmissionStatus
unfolding evaluate_transition
move from to = elim (evaluate_transition from to).outcome [ applied ↦ to | _ ↦ from ]

-- A sequence of requested statuses.
unfoldable pub moves : FiscalSubmissionStatus → List FiscalSubmissionStatus → FiscalSubmissionStatus
unfolding move
moves from [] = from
moves from (to ∷ rest) = moves (move from to) rest

move_of_terminal :
    (from to : FiscalSubmissionStatus) → is_terminal from ≡ true → move from to ≡ from
unfolding move
move_of_terminal from to h = ground arith

-- A terminal status absorbs every sequence of requested statuses.
moves-terminal :
    (from : FiscalSubmissionStatus) (rest : List FiscalSubmissionStatus)
    → is_terminal from ≡ true
    → moves from rest ≡ from
unfolding moves
moves-terminal from [] h = refl
moves-terminal from (to ∷ rest) h = rw (move_of_terminal from to h) (moves-terminal from rest h)

-- The statuses before the first claim.
abbrev pub is_fresh : FiscalSubmissionStatus → Bool
is_fresh requested = true
is_fresh queued = true
is_fresh _ = false

move_fresh :
    (from to : FiscalSubmissionStatus)
    → is_fresh from ≡ true
    → (is_fresh (move from to) ≡ true) ⊎ (to ≡ submitting)
unfolding move
move_fresh from to h = ground arith

move-ne-superseded :
    (from to : FiscalSubmissionStatus) → from ≢ superseded → move from to ≢ superseded
unfolding move
move-ne-superseded from to h = ground arith

-- No sequence of requested statuses leads a submission that is not superseded to `SUPERSEDED`.
pub moves-ne-superseded :
    (from : FiscalSubmissionStatus) (rest : List FiscalSubmissionStatus)
    → from ≢ superseded
    → moves from rest ≢ superseded
unfolding moves
moves-ne-superseded from [] h = h
moves-ne-superseded from (to ∷ rest) h =
    moves-ne-superseded (move from to) rest (move-ne-superseded from to h)

-- A submission that is requested or queued reaches another status, an outcome among them, only by
-- a sequence that asks for `SUBMITTING`.
moves_needs_submitting :
    (from : FiscalSubmissionStatus) (rest : List FiscalSubmissionStatus)
    → is_fresh from ≡ true
    → is_fresh (moves from rest) ≡ false
    → has rest submitting ≡ true
unfolding moves has
moves_needs_submitting from [] h k = cc
moves_needs_submitting from (to ∷ rest) h k = elim (move_fresh from to h) [
  | inl still ↦ ground (arith, moves_needs_submitting (move from to) rest still k)
  | inr now ↦ ground arith
]

-- From every status but `REJECTED` and `SUPERSEDED` a sequence of requested statuses leads to
-- `ACCEPTED`.
moves-accepted :
    (s : FiscalSubmissionStatus)
    → s ≢ rejected
    → s ≢ superseded
    → (rest : List FiscalSubmissionStatus) × (moves s rest ≡ accepted)
unfolding moves
moves-accepted rejected h k = absurd (h refl)
moves-accepted superseded h k = absurd (k refl)
moves-accepted requested h k = (queued ∷ submitting ∷ accepted ∷ [], refl)
moves-accepted queued h k = (submitting ∷ accepted ∷ [], refl)
moves-accepted submitting h k = (accepted ∷ [], refl)
moves-accepted post_outcome_unknown h k = (accepted ∷ [], refl)
moves-accepted acknowledged h k = (accepted ∷ [], refl)
moves-accepted processing h k = (accepted ∷ [], refl)
moves-accepted accepted h k = ([], refl)
moves-accepted technical_retry_pending h k = (queued ∷ submitting ∷ accepted ∷ [], refl)
moves-accepted manual_review_required h k = (queued ∷ submitting ∷ accepted ∷ [], refl)
