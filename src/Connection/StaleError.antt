-- ===== src/Connection/StaleError.antt =====
-- What a validation leaves in the row.
use billing_api.Common.{ℕ, ◌≡◌, refl, false, none, some, Text, ok, arith}
use billing_api.Connection

-- A validation that succeeds returns a connection without an error code, but the row, connected now,
-- keeps the code that an earlier failure has left in it.
pub validate_connection_keeps_error :
    (now : ℕ) (idp : Connection.HaciendaCredentials → Connection.Validation) (w : Connection.World)
    (c : Connection.HaciendaConnection) (credentials : Connection.HaciendaCredentials)
    (token : Connection.HaciendaTokenResult) (code : Text)
    → w.row ≡ some c
    → Connection.is_disabled c.status ≡ false
    → Connection.secret_of c.secret_reference w.secrets ≡ some credentials
    → idp credentials ≡ Connection.valid token
    → c.last_validation_error_code ≡ some code
    → let r = Connection.validate_connection now (λ u. u) idp w in
      (c' : Connection.HaciendaConnection) × (row : Connection.HaciendaConnection) × (r.0 ≡ ok c')
      × (c'.last_validation_error_code ≡ none)
      × (r.1.row ≡ some row)
      × (row.status ≡ Connection.connected)
      × (row.last_validation_error_code ≡ some code)
unfolding Connection.validate_connection Connection.validate_row Connection.mark_connected
    Connection.commit Connection.save
validate_connection_keeps_error now idp w c credentials token code e opened secret answer failed =
    let c' : Connection.HaciendaConnection = record c {
      status = Connection.connected;
      last_validated_at = some now;
      last_successful_auth_at = some now;
      last_validation_error_code = none;
      updated_at = now;
    } in
    (c', Connection.overwrite c' c, ground arith, refl, ground arith, refl, failed)
