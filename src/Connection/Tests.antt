-- ===== src/Connection/Tests.antt =====
-- A connection that is configured and validated, and the witnesses of the theorems on connections.
use billing_api.Common.{
  ◌+◌, ◌<◌, ◌≡◌, ◌⊎◌, refl, true, false, [], ◌∷◌, Option, none, some, eq_text, codes, ok, arith,
}
use billing_api.Connection.{
  HaciendaConnection, connected, HaciendaCredentials, HaciendaTokenResult, World,
  ConfigureConnectionCommand, Validation, valid, validating, perform, validate_connection,
  configure, configure_connection, disable_connection, access_token, get_token, disable_row,
  disable, commit, save, is_disabled, has_status,
}
use billing_api.Connection.Rotation.{Resolves, configure_connection-Resolves, access_token_reused}
use billing_api.Connection.StaleError.{validate_connection_keeps_error}
use billing_api.Connection.Locking.{perform-disabled}

abbrev no_others : World → World
no_others w = w

abbrev credentials : HaciendaCredentials
credentials = record { username = codes "user"; password = codes "secret" }

abbrev connected_world : World
connected_world = record {
  row = some (record (configure 10 (codes "c1") (codes "ref-1")) { status = connected });
  secrets = (codes "ref-1", credentials) ∷ [];
  token = none;
  events = [];
}

abbrev new_password : ConfigureConnectionCommand
new_password = record {
  username = none;
  password = some (codes "other");
  preserve_connected_status_for_secret_restore = false;
}

abbrev token : HaciendaTokenResult
token = record { access_token = codes "token"; expires_at = 300000 }

abbrev identity_provider : HaciendaCredentials → Option HaciendaTokenResult
identity_provider c = some token

abbrev unavailable_provider : HaciendaCredentials → Option HaciendaTokenResult
unavailable_provider c = none

abbrev accepts : HaciendaCredentials → Validation
accepts c = valid token

abbrev disabled_meanwhile : World → World
disabled_meanwhile w = (disable_connection 15 no_others w).1

abbrev after_rotation : World
after_rotation =
    (configure_connection 20 no_others (codes "c2") (codes "ref-2") new_password connected_world).1

configure_connection-Resolves_example : Resolves after_rotation.row after_rotation.secrets
unfolding configure eq_text
configure_connection-Resolves_example =
    configure_connection-Resolves 20 no_others (codes "c2") (codes "ref-2") new_password
      connected_world (credentials, refl) (credentials, refl)

perform-disabled_example :
    let after = (perform 20 disabled_meanwhile (validating accepts) connected_world).1 in
    (after.row ≡ connected_world.row) ⊎ (has_status is_disabled after.row ≡ true)
unfolding configure disable_connection disable_row disable commit save
perform-disabled_example =
    perform-disabled 20 disabled_meanwhile (validating accepts) connected_world
      (λ c c' e e' same. ground arith) refl

access_token_reused_example :
    (t : HaciendaTokenResult) × ((record connected_world { token = some token }).token ≡ some t)
    × (t.access_token ≡ codes "token")
    × (200000 + 30000 < t.expires_at
        → access_token 200000 30000 unavailable_provider
            (codes "ref-9")
            (record connected_world { token = some token })
          ≡ (some (codes "token"), record connected_world { token = some token }))
unfolding access_token get_token eq_text
access_token_reused_example =
    access_token_reused 0 200000 30000 identity_provider unavailable_provider (codes "ref-1")
      (codes "ref-9") connected_world (record connected_world { token = some token })
      (codes "token") refl

abbrev failed_world : World
failed_world = record connected_world {
  row = some (record (configure 10 (codes "c1") (codes "ref-1")) {
    last_validation_error_code = some (codes "IDP_UNAVAILABLE");
  });
}

validate_connection_keeps_error_example :
    let r = validate_connection 20 no_others accepts failed_world in
    (c' : HaciendaConnection) × (row : HaciendaConnection) × (r.0 ≡ ok c')
    × (c'.last_validation_error_code ≡ none)
    × (r.1.row ≡ some row)
    × (row.status ≡ connected)
    × (row.last_validation_error_code ≡ some (codes "IDP_UNAVAILABLE"))
unfolding configure eq_text
validate_connection_keeps_error_example =
    validate_connection_keeps_error 20 accepts failed_world
      (record (configure 10 (codes "c1") (codes "ref-1")) {
        last_validation_error_code = some (codes "IDP_UNAVAILABLE");
      })
      credentials token (codes "IDP_UNAVAILABLE") refl refl refl refl refl
