-- ===== src/Connection.antt =====
-- src/modules/hacienda-connection: the connection of a company to an environment of Hacienda
-- (domain/entities/hacienda-connection.entity.ts), the repository's save, the token cache, and the
-- handlers configure-connection, validate-connection and disable-connection.
--
-- A `World` has the row of one company and environment, the secrets, the cached token and what was
-- recorded. `others` is what other processes do between a handler's read and its save. A handler
-- returns its result with the world that it leaves, also when it throws. The company is one that the
-- tenant has, and a secret is read as the credentials that were stored. An error that is neither 404
-- nor 409 is `thrown` with its code.
mod Rotation
mod Tests
mod Locking
mod StaleError
use billing_api.Common.{
  ℕ, ◌+◌, Bool, true, false, not, ◌&&◌, List, [], ◌∷◌, Option, none, some, or_else, or_option, Text,
  eq_text, codes, leb, ◌==◌, if◌then◌else◌, Result, ok, err,
}
use billing_api.FiscalDocument.{ServiceError, not_found, conflict, thrown, is_present}

pub data HaciendaConnectionStatus : Type 0 where
  not_configured pending_validation connected invalid_credentials unavailable disabled :
      HaciendaConnectionStatus

pub record HaciendaConnection : Type 0 where
  pub id : Text
  pub status : HaciendaConnectionStatus
  pub secret_reference : Text
  pub last_validated_at : Option ℕ
  pub last_successful_auth_at : Option ℕ
  pub last_validation_error_code : Option Text
  pub created_at : ℕ
  pub updated_at : ℕ

pub record HaciendaCredentials : Type 0 where
  pub username : Text
  pub password : Text

pub record HaciendaTokenResult : Type 0 where
  pub access_token : Text
  pub expires_at : ℕ

pub data ConnectionEvent : Type 0 where
  credentials_rotated configured validation_succeeded validation_failed : ConnectionEvent
  connection_disabled : Bool → ConnectionEvent

pub record World : Type 0 where
  pub row : Option HaciendaConnection
  pub secrets : List (Text × HaciendaCredentials)
  pub token : Option HaciendaTokenResult
  pub events : List ConnectionEvent

abbrev pub is_disabled : HaciendaConnectionStatus → Bool
is_disabled disabled = true
is_disabled _ = false

abbrev pub is_connected : HaciendaConnectionStatus → Bool
is_connected connected = true
is_connected _ = false

-- `configure`, with the reference that is given.
unfoldable pub configure : ℕ → Text → Text → HaciendaConnection
configure now id reference = record {
  id = id;
  status = pending_validation;
  secret_reference = reference;
  last_validated_at = none;
  last_successful_auth_at = none;
  last_validation_error_code = none;
  created_at = now;
  updated_at = now;
}

abbrev assert_not_disabled :
    HaciendaConnection → HaciendaConnection → Result ServiceError HaciendaConnection
assert_not_disabled c after =
    if is_disabled c.status then err (thrown "Hacienda connection is disabled") else ok after

unfoldable pub mark_connected : ℕ → HaciendaConnection → Result ServiceError HaciendaConnection
mark_connected at c = assert_not_disabled c (record c {
  status = connected;
  last_validated_at = some at;
  last_successful_auth_at = some at;
  last_validation_error_code = none;
  updated_at = at;
})

unfoldable pub mark_invalid_credentials :
    Text → ℕ → HaciendaConnection → Result ServiceError HaciendaConnection
mark_invalid_credentials code at c = assert_not_disabled c (record c {
  status = invalid_credentials;
  last_validated_at = some at;
  last_validation_error_code = some code;
  updated_at = at;
})

unfoldable pub mark_unavailable :
    Text → ℕ → HaciendaConnection → Result ServiceError HaciendaConnection
mark_unavailable code at c = assert_not_disabled c (record c {
  status = unavailable;
  last_validated_at = some at;
  last_validation_error_code = some code;
  updated_at = at;
})

unfoldable pub disable : ℕ → HaciendaConnection → HaciendaConnection
disable now c = record c { status = disabled; updated_at = now }

-- The data of an update: the row keeps its id and its creation, and the value of a field that is
-- `undefined` in the data, which Prisma leaves out.
abbrev pub overwrite : HaciendaConnection → HaciendaConnection → HaciendaConnection
overwrite c old = record c {
  id = old.id;
  created_at = old.created_at;
  last_validated_at = or_option c.last_validated_at old.last_validated_at;
  last_successful_auth_at = or_option c.last_successful_auth_at old.last_successful_auth_at;
  last_validation_error_code =
      or_option c.last_validation_error_code old.last_validation_error_code;
}

-- `save`: an update where the row is as it was read, or an insert, which a row refuses.
unfoldable pub save :
    HaciendaConnection → Option ℕ → Option HaciendaConnection → Bool × Option HaciendaConnection
save c (some expected) none = (false, none)
save c (some expected) (some old) =
    if old.updated_at == expected then (true, some (overwrite c old)) else (false, some old)
save c none none = (true, some c)
save c none (some old) = (false, some old)

abbrev pub secret_of : Text → List (Text × HaciendaCredentials) → Option HaciendaCredentials
secret_of reference [] = none
secret_of reference ((r, credentials) ∷ secrets) =
    if eq_text r reference then some credentials else secret_of reference secrets

abbrev pub Outcome : Type 0
Outcome = Result ServiceError HaciendaConnection × World

-- `if (!saved) throw`, and what follows a save: the token is dropped or kept, an event recorded.
unfoldable pub commit : HaciendaConnection → Option ℕ → Bool → ConnectionEvent → World → Outcome
commit c expected keeps_token event w =
    let saved = save c expected w.row in
    if saved.0
    then (
      ok c,
      record w {
        row = saved.1;
        token = if keeps_token then w.token else none;
        events = event ∷ w.events;
      },
    )
    else (err (conflict "HACIENDA_CONNECTION_CONCURRENT_CONFLICT"), w)

pub record ConfigureConnectionCommand : Type 0 where
  pub username : Option Text
  pub password : Option Text
  pub preserve_connected_status_for_secret_restore : Bool

abbrev pub missing : ServiceError
missing = thrown "HACIENDA_CONNECTION_INSUFFICIENT_CREDENTIALS"

abbrev pub is_complete : ConfigureConnectionCommand → Bool
is_complete command = is_present command.username && is_present command.password

-- `command.username ?? previous.username`, and the password.
abbrev pub merged : ConfigureConnectionCommand → HaciendaCredentials → HaciendaCredentials
merged command previous = record {
  username = or_else command.username previous.username;
  password = or_else command.password previous.password;
}

abbrev pub given : ConfigureConnectionCommand → HaciendaCredentials
given command = merged command (record { username = []; password = [] })

-- The credentials to store; a secret that is not there makes `getSecret` throw.
unfoldable pub new_credentials :
    ConfigureConnectionCommand
    → Option HaciendaConnection
    → List (Text × HaciendaCredentials)
    → Result ServiceError HaciendaCredentials
new_credentials command none secrets =
    if is_complete command then ok (given command) else err missing
new_credentials command (some existing) secrets =
    if is_complete command
    then ok (given command)
    else elim (secret_of existing.secret_reference secrets) [
      | none ↦ err (thrown "Secret not found")
      | some previous ↦ ok (merged command previous)
    ]

unfoldable pub build_connection :
    ℕ → Text → ConfigureConnectionCommand → Option HaciendaConnection → Text → HaciendaConnection
unfolding configure
build_connection now id command none reference = configure now id reference
build_connection now id command (some existing) reference =
    if command.preserve_connected_status_for_secret_restore
      && is_connected existing.status
      && is_complete command
    then record existing { secret_reference = reference; updated_at = now }
    else configure now existing.id reference

abbrev pub version : Option HaciendaConnection → Option ℕ
version none = none
version (some c) = some c.updated_at

abbrev pub has_status : (HaciendaConnectionStatus → Bool) → Option HaciendaConnection → Bool
has_status test none = false
has_status test (some c) = test c.status

abbrev pub rotated : Option HaciendaConnection → ConnectionEvent
rotated none = configured
rotated (some c) = credentials_rotated

-- The answer of the identity provider to the credentials.
pub data Validation : Type 0 where
  valid : HaciendaTokenResult → Validation
  refused unreachable : Validation

module _ (now : ℕ) (others : World → World) where
  -- With the credentials: the secret is stored, then the row, which others may have changed.
  unfoldable pub store_connection :
      Text
      → Text
      → ConfigureConnectionCommand
      → Option HaciendaConnection
      → HaciendaCredentials
      → World
      → Outcome
  store_connection id reference command existing credentials w =
      let w₁ = others w in
      commit (build_connection now id command existing reference) (version existing) false
        (rotated existing) (record w₁ { secrets = (reference, credentials) ∷ w₁.secrets })

  abbrev pub store_if_had :
      Text
      → Text
      → ConfigureConnectionCommand
      → Option HaciendaConnection
      → Result ServiceError HaciendaCredentials
      → World
      → Outcome
  store_if_had id reference command existing (err e) w = (err e, w)
  store_if_had id reference command existing (ok credentials) w =
      store_connection id reference command existing credentials w

  unfoldable pub configure_connection : Text → Text → ConfigureConnectionCommand → World → Outcome
  configure_connection id reference command w =
      if has_status is_disabled w.row
      then (err (thrown "HACIENDA_CONNECTION_DISABLED"), w)
      else if not (is_present command.username) && not (is_present command.password)
      then (err missing, w)
      else store_if_had id reference command w.row (new_credentials command w.row w.secrets) w

  abbrev pub validated : Validation → HaciendaConnection → Result ServiceError HaciendaConnection
  validated (valid token) c = mark_connected now c
  validated refused c = mark_invalid_credentials (codes "INVALID_CREDENTIALS") now c
  validated unreachable c = mark_unavailable (codes "IDP_UNAVAILABLE") now c

  -- The token is cached before the save.
  abbrev pub cache_token : Validation → World → World
  cache_token (valid token) w = record w { token = some token }
  cache_token _ w = w

  abbrev pub validation_event : Validation → ConnectionEvent
  validation_event (valid token) = validation_succeeded
  validation_event _ = validation_failed

  abbrev pub validate_found :
      Validation → HaciendaConnection → Result ServiceError HaciendaConnection → World → Outcome
  validate_found v c (err e) w = (err e, w)
  validate_found v c (ok c') w =
      commit c' (some c.updated_at) true (validation_event v) (cache_token v w)

  abbrev pub validate_with :
      (HaciendaCredentials → Validation)
      → HaciendaConnection
      → Option HaciendaCredentials
      → World
      → Outcome
  validate_with idp c none w = (err (thrown "Secret not found"), w)
  validate_with idp c (some credentials) w =
      validate_found (idp credentials) c (validated (idp credentials) c) (others w)

  -- From the row that was read.
  unfoldable pub validate_row :
      (HaciendaCredentials → Validation) → Option HaciendaConnection → World → Outcome
  validate_row idp none w = (err (not_found "HACIENDA_CONNECTION_NOT_FOUND"), w)
  validate_row idp (some c) w =
      if is_disabled c.status
      then (err (thrown "HACIENDA_CONNECTION_DISABLED"), w)
      else validate_with idp c (secret_of c.secret_reference w.secrets) w

  unfoldable pub validate_connection : (HaciendaCredentials → Validation) → World → Outcome
  validate_connection idp w = validate_row idp w.row w

  unfoldable pub disable_row : Option HaciendaConnection → World → Outcome
  disable_row none w = (err (not_found "HACIENDA_CONNECTION_NOT_FOUND"), w)
  disable_row (some c) w =
      if is_disabled c.status
      then (ok c, record w { token = none; events = connection_disabled true ∷ w.events })
      else commit (disable now c) (some c.updated_at) false (connection_disabled false) (others w)

  unfoldable pub disable_connection : World → Outcome
  disable_connection w = disable_row w.row w

-- A call of one of the three handlers.
pub data Call : Type 0 where
  configuring : Text → Text → ConfigureConnectionCommand → Call
  validating : (HaciendaCredentials → Validation) → Call
  disabling : Call

abbrev pub perform : ℕ → (World → World) → Call → World → Outcome
perform now others (configuring id reference command) w =
    configure_connection now others id reference command w
perform now others (validating idp) w = validate_connection now others idp w
perform now others disabling w = disable_connection now others w

-- `getToken`, with the safety margin.
unfoldable pub get_token : ℕ → ℕ → Option HaciendaTokenResult → Option Text
get_token now margin none = none
get_token now margin (some token) =
    if leb token.expires_at (now + margin) then none else some token.access_token

-- `accessToken` of the submission worker: the cached token, or one that the stored credentials get.
unfoldable pub access_token :
    ℕ → ℕ → (HaciendaCredentials → Option HaciendaTokenResult) → Text → World → Option Text × World
access_token now margin authenticate reference w = elim (get_token now margin w.token) [
  | some cached ↦ (some cached, w)
  | none ↦ elim (secret_of reference w.secrets) [
    | none ↦ (none, w)
    | some credentials ↦ elim (authenticate credentials) [
      | none ↦ (none, w)
      | some token ↦ (some token.access_token, record w { token = some token })
    ]
  ]
]
