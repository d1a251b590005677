-- ===== src/Delivery/Worker/Horizon.antt =====
-- A delivery is tried a bounded number of times, whatever its runs come to.
use billing_api.Common.{
  ℕ, ◌+◌, ◌≤◌, true, false, List, [], ◌∷◌, some, Text, length, ◌≡◌, refl, ap, ◌∙◌, inl, inr, arith,
  Bool-cases,
}
use billing_api.Delivery.StateMachine.{DocumentDeliveryStatus, has, retry_pending}
use billing_api.Delivery.Worker.{DocumentDelivery, Db, Tried, is_claimable, process_delivery}
use billing_api.Delivery.Worker.Outcomes.{is_settled, process_delivery_settles}

-- One run of the job: its random jitter, its clock, the id of its attempt, and what it came to.
pub record Run : Type 0 where
  pub jitter : ℕ
  pub now : ℕ
  pub attempt_id : Text
  pub tried : Tried

abbrev pub perform : Run → Db → Db
perform r db = process_delivery r.jitter r.now r.attempt_id (λ d. d) (λ d. d) r.tried db

-- The queue runs the job again and again.
unfoldable pub run_all : List Run → Db → Db
run_all [] db = db
run_all (r ∷ rs) db = run_all rs (perform r db)

-- A row that cannot be claimed is left alone.
perform_unclaimable :
    (r : Run) (db : Db) (row : DocumentDelivery)
    → db.delivery ≡ some row
    → is_claimable row.status ≡ false
    → perform r db ≡ db
unfolding process_delivery
perform_unclaimable r db row e h = ground arith

run_all_unclaimable :
    (rs : List Run) (db : Db) (row : DocumentDelivery)
    → db.delivery ≡ some row
    → is_claimable row.status ≡ false
    → run_all rs db ≡ db
unfolding run_all
run_all_unclaimable [] db row e h = refl
run_all_unclaimable (r ∷ rs) db row e h =
    rw (perform_unclaimable r db row e h) (run_all_unclaimable rs db row e h)

-- Of the settled statuses only `RETRY_PENDING` can be claimed again.
retry_of_claimable :
    (s : DocumentDeliveryStatus) → is_settled s ≡ true → is_claimable s ≡ true → s ≡ retry_pending
unfolding has
retry_of_claimable s h k = ground arith

-- However often the job runs, a delivery that starts with at most eight attempts is never attempted
-- more than nine times, and after nine runs less the attempts that it had it is no longer claimable.
pub run_all_bounded :
    (rs : List Run) (db : Db) (row : DocumentDelivery)
    → db.delivery ≡ some row
    → row.attempt_count ≤ 8
    → (row' : DocumentDelivery) × ((run_all rs db).delivery ≡ some row')
      × (row'.attempt_count ≤ 9)
      × (9 ≤ length rs + row.attempt_count → is_claimable row'.status ≡ false)
unfolding run_all
run_all_bounded [] db row e h = (row, e, omega arith, λ k. absurd (omega arith))
run_all_bounded (r ∷ rs) db row e h = elim (Bool-cases (is_claimable row.status)) [
  | inl taken ↦
      let (row', e', n, s, _, budget) =
        process_delivery_settles r.jitter r.now r.attempt_id r.tried db row e taken in
      elim (Bool-cases (is_claimable row'.status)) [
        | inl again ↦
            let (last, f, most, done) =
              run_all_bounded rs (perform r db) row' e'
                (omega (arith, budget (retry_of_claimable row'.status s again))) in
            (last, f, most, λ k. done (omega arith))
        | inr over ↦ (
          row',
          ap (λ d. d.delivery) (run_all_unclaimable rs (perform r db) row' e' over) ∙ e',
          omega arith,
          λ _. over,
        )
      ]
  | inr over ↦ (
    row,
    ap (λ d. d.delivery) (run_all_unclaimable (r ∷ rs) db row e over) ∙ e,
    omega arith,
    λ _. over,
  )
]
