-- ===== src/Connection/Locking.antt =====
-- The lock of a connection by the time of its last change.
use billing_api.Common.{
  ℕ, ◌≡◌, ◌≢◌, ◌⊎◌, inl, inr, refl, Bool, true, false, not, ◌&&◌, ◌∷◌, Option, none, some, if_both,
  Result, ok, err, Bool-cases, Option-cases, ◌==◌, ◌∙◌, ap, arith,
}
use billing_api.FiscalDocument.{ServiceError, is_present}
use billing_api.Connection

-- A change gives the row a new time.
abbrev pub Timed :
    Option Connection.HaciendaConnection → Option Connection.HaciendaConnection → Type 0
Timed row row' =
    (c c' : Connection.HaciendaConnection)
    → row ≡ some c
    → row' ≡ some c'
    → c'.updated_at ≡ c.updated_at
    → c' ≡ c

-- The call has stopped before it let others in, or the row is disabled after it.
abbrev Left : Connection.World → Connection.Outcome → Type 0
Left w r = (r.1.row ≡ w.row) ⊎ (Connection.has_status Connection.is_disabled r.1.row ≡ true)

-- A row that is there and is not as it was read is not written.
save-refused :
    (c row : Connection.HaciendaConnection) (expected : Option ℕ)
    → expected ≢ some row.updated_at
    → (Connection.save c expected (some row)).0 ≡ false
unfolding Connection.save
save-refused c row none differs = refl
save-refused c row (some t) differs = elim (Bool-cases (row.updated_at == t)) [
  | inl current ↦ absurd (differs (ground arith))
  | inr stale ↦ ground arith
]

commit-refused :
    (c : Connection.HaciendaConnection) (expected : Option ℕ) (keeps_token : Bool)
    (event : Connection.ConnectionEvent) (w : Connection.World)
    → (Connection.save c expected w.row).0 ≡ false
    → (Connection.commit c expected keeps_token event w).1 ≡ w
unfolding Connection.commit
commit-refused c expected keeps_token event w lost = ground arith

commit-disabled :
    (c : Connection.HaciendaConnection) (read : Option Connection.HaciendaConnection)
    (keeps_token : Bool) (event : Connection.ConnectionEvent) (w : Connection.World)
    → Timed read w.row
    → Connection.has_status Connection.is_disabled read ≡ false
    → Connection.has_status Connection.is_disabled w.row ≡ true
    → Connection.has_status Connection.is_disabled
        (Connection.commit c (Connection.version read) keeps_token event w).1.row
      ≡ true
commit-disabled c read keeps_token event w timed opened closed = elim (Option-cases w.row) [
  | inl missing ↦ absurd (ground arith)
  | inr (row, found) ↦
      let refused : (Connection.save c (Connection.version read) (some row)).0 ≡ false =
        save-refused c row (Connection.version read)
          (λ e. moved read row timed opened e found closed) in
      let left =
        commit-refused c (Connection.version read) keeps_token event w
          (ap (λ o. (Connection.save c (Connection.version read) o).0) found ∙ refused) in
      ap (λ u. Connection.has_status Connection.is_disabled u.row) left ∙ closed
]
  where
    moved :
        (read : Option Connection.HaciendaConnection) (row : Connection.HaciendaConnection)
        → Timed read w.row
        → Connection.has_status Connection.is_disabled read ≡ false
        → Connection.version read ≡ some row.updated_at
        → w.row ≡ some row
        → Connection.has_status Connection.is_disabled w.row ≡ true
        → ⊥
    moved none row timed opened e found closed = cc
    moved (some old) row timed opened e found closed =
        let same : row ≡ old = timed old row refl found (ground arith) in ground arith

validate_found-disabled :
    (v : Connection.Validation) (now : ℕ) (others : Connection.World → Connection.World)
    (c : Connection.HaciendaConnection) (r : Result ServiceError Connection.HaciendaConnection)
    (w : Connection.World)
    → Timed (some c) w.row
    → Connection.is_disabled c.status ≡ false
    → Connection.has_status Connection.is_disabled w.row ≡ true
    → Connection.has_status Connection.is_disabled
        (Connection.validate_found now others v c r w).1.row
      ≡ true
validate_found-disabled v now others c (err e) w timed opened closed = closed
validate_found-disabled (Connection.valid token) now others c (ok c') w timed opened closed =
    commit-disabled c' (some c) true
      (Connection.validation_event now others (Connection.valid token))
      (record w { token = some token }) timed opened closed
validate_found-disabled Connection.refused now others c (ok c') w timed opened closed =
    commit-disabled c' (some c) true (Connection.validation_event now others Connection.refused) w
      timed opened closed
validate_found-disabled Connection.unreachable now others c (ok c') w timed opened closed =
    commit-disabled c' (some c) true (Connection.validation_event now others Connection.unreachable)
      w timed opened closed

validate_row-Left :
    (now : ℕ) (others : Connection.World → Connection.World)
    (idp : Connection.HaciendaCredentials → Connection.Validation)
    (o : Option Connection.HaciendaConnection) (w : Connection.World)
    → Timed o (others w).row
    → Connection.has_status Connection.is_disabled (others w).row ≡ true
    → Left w (Connection.validate_row now others idp o w)
unfolding Connection.validate_row
validate_row-Left now others idp none w timed closed = inl refl
validate_row-Left now others idp (some c) w timed closed =
    elim (Bool-cases (Connection.is_disabled c.status)) [
      | inl done ↦ inl (ground arith)
      | inr opened ↦
          if_both (Left w) (Connection.is_disabled c.status)
            (err (Connection.thrown "HACIENDA_CONNECTION_DISABLED"), w) _ (inl refl)
            (secret opened (Connection.secret_of c.secret_reference w.secrets))
    ]
  where
    secret :
        Connection.is_disabled c.status ≡ false
        → (found : Option Connection.HaciendaCredentials)
        → Left w (Connection.validate_with now others idp c found w)
    secret opened none = inl refl
    secret opened (some credentials) = inr (
        validate_found-disabled (idp credentials) now others c
          (Connection.validated now others (idp credentials) c) (others w) timed opened closed)

disable_row-Left :
    (now : ℕ) (others : Connection.World → Connection.World)
    (o : Option Connection.HaciendaConnection) (w : Connection.World)
    → Timed o (others w).row
    → Connection.has_status Connection.is_disabled (others w).row ≡ true
    → Left w (Connection.disable_row now others o w)
unfolding Connection.disable_row
disable_row-Left now others none w timed closed = inl refl
disable_row-Left now others (some c) w timed closed =
    elim (Bool-cases (Connection.is_disabled c.status)) [
      | inl done ↦ inl (ground arith)
      | inr opened ↦ if_both (Left w) (Connection.is_disabled c.status) _ _ (inl refl) (
          inr (
            commit-disabled (Connection.disable now c) (some c) false
              (Connection.connection_disabled false) (others w) timed opened closed))
    ]

-- A connection that is disabled while a handler runs stays disabled, whichever handler it is and
-- whatever it meets, if every change gives the row a new time; or the handler wrote no row at all.
pub perform-disabled :
    (now : ℕ) (others : Connection.World → Connection.World) (call : Connection.Call)
    (w : Connection.World)
    → Timed w.row (others w).row
    → Connection.has_status Connection.is_disabled (others w).row ≡ true
    → let after = (Connection.perform now others call w).1 in
      (after.row ≡ w.row) ⊎ (Connection.has_status Connection.is_disabled after.row ≡ true)
unfolding Connection.configure_connection Connection.store_connection Connection.validate_connection
    Connection.disable_connection
perform-disabled now others (Connection.configuring id reference command) w timed closed =
    elim (Bool-cases (Connection.has_status Connection.is_disabled w.row)) [
      | inl done ↦ inl (ground arith)
      | inr opened ↦
          if_both (Left w) (Connection.has_status Connection.is_disabled w.row)
            (err (Connection.thrown "HACIENDA_CONNECTION_DISABLED"), w) _ (inl refl)
            (if_both (Left w)
              (not (is_present command.username) && not (is_present command.password))
              (err Connection.missing, w) _ (inl refl)
              (stored opened (Connection.new_credentials command w.row w.secrets)))
    ]
  where
    stored :
        Connection.has_status Connection.is_disabled w.row ≡ false
        → (r : Result ServiceError Connection.HaciendaCredentials)
        → Left w (Connection.store_if_had now others id reference command w.row r w)
    stored opened (err e) = inl refl
    stored opened (ok credentials) = inr (
        commit-disabled (Connection.build_connection now id command w.row reference) w.row false
          (Connection.rotated w.row)
          (record (others w) { secrets = (reference, credentials) ∷ (others w).secrets }) timed
          opened closed)
perform-disabled now others (Connection.validating idp) w timed closed =
    validate_row-Left now others idp w.row w timed closed
perform-disabled now others Connection.disabling w timed closed =
    disable_row-Left now others w.row w timed closed
