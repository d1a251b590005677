-- ===== src/ApiKeys/Guard.antt =====
-- src/api/guards/api-key-auth.guard.ts and scope.guard.ts: what a request with an API key may reach.
-- A header, parameter or field that is no string is `none`. An exception is its class and its code.
pub mod Access
use billing_api.Common.{
  ℕ, Bool, true, false, not, ◌&&◌, ◌||◌, List, [], ◌∷◌, String, Option, none, some, or_option, Text,
  codes, eq_text, includes, contains_text, find, if◌then◌else◌, Result, ok, err, ◌>>=◌, ◌>>◌,
  reject_if,
}
use billing_api.ApiKeys.{
  ApiKey, live, test, ApiKeyError, key_invalid, key_revoked, key_expired, key_not_found,
  validate_api_key,
}

pub data GuardError : Type 0 where
  unauthorized forbidden not_found : String → GuardError

pub record Request : Type 0 where
  pub x_api_key : Option Text
  pub company_param : Option Text
  pub company_field : Option Text
  pub environment_param : Option Text
  pub environment_field : Option Text
  pub path : Text

-- An active company, with the keys that are assigned to it.
pub record Company : Type 0 where
  pub id : Text
  pub tenant_id : Text
  pub is_active : Bool
  pub authorized_api_keys : List Text

-- `readString`
abbrev pub read_string : Option Text → Option Text
read_string (some (c ∷ s)) = some (c ∷ s)
read_string _ = none

abbrev pub company_of : Request → Option Text
company_of r = or_option (read_string r.company_param) (read_string r.company_field)

abbrev pub environment_of : Request → Option Text
environment_of r = or_option (read_string r.environment_param) (read_string r.environment_field)

abbrev pub visibility_error : Request → GuardError
visibility_error r =
    if contains_text r.path (codes "/identity-by-idempotency")
      || contains_text r.path (codes "/identity-by-fiscal-evidence")
    then not_found "FISCAL_IDENTITY_NOT_FOUND"
    else not_found "COMPANY_NOT_FOUND"

abbrev is_visible : ApiKey → Option Company → Bool
is_visible key none = false
is_visible key (some c) = eq_text c.tenant_id key.tenant_id

-- The condition of the second query.
abbrev pub is_authorized : ApiKey → Text → Company → Bool
is_authorized key id c =
    eq_text c.id id
    && c.is_active
    && eq_text c.tenant_id key.tenant_id
    && includes c.authorized_api_keys key.id

abbrev is_found : Option Company → Bool
is_found none = false
is_found (some c) = true

unfoldable pub assert_company_authorization :
    List Company → Request → ApiKey → Result GuardError (Unit {0})
assert_company_authorization companies r key = elim (company_of r) [
  | none ↦ ok tt
  | some id ↦
      reject_if (not (is_visible key (find (λ c. eq_text c.id id && c.is_active) companies)))
        (visibility_error r)
      >> reject_if (not (is_found (find (is_authorized key id) companies)))
          (forbidden "API_KEY_COMPANY_NOT_AUTHORIZED")
]

abbrev pub expected_environment : ApiKey → Text
expected_environment key = elim key.environment [
  | test ↦ codes "SANDBOX"
  | live ↦ codes "PRODUCTION"
]

unfoldable pub assert_environment_authorization : Request → ApiKey → Result GuardError (Unit {0})
assert_environment_authorization r key = elim (environment_of r) [
  | none ↦ ok tt
  | some environment ↦
      reject_if (not (eq_text environment (expected_environment key)))
        (forbidden "API_KEY_ENVIRONMENT_NOT_AUTHORIZED")
]

abbrev pub of_key_error : ApiKeyError → GuardError
of_key_error key_expired = unauthorized "API_KEY_EXPIRED"
of_key_error key_revoked = unauthorized "API_KEY_REVOKED"
of_key_error key_invalid = unauthorized "API_KEY_INVALID"
of_key_error key_not_found = unauthorized "API key authentication failed."

abbrev pub validated : Result ApiKeyError ApiKey → Result GuardError ApiKey
validated (err e) = err (of_key_error e)
validated (ok key) = ok key

module _ (verify : Text → Text → Bool) where
  -- `canActivate` of the guard of keys: the key that it sets on the request.
  unfoldable pub authenticate_request :
      ℕ → List ApiKey → List Company → Request → Result GuardError ApiKey
  authenticate_request now keys companies r = elim (read_string r.x_api_key) [
    | none ↦ err (unauthorized "Missing X-API-Key header.")
    | some raw ↦ do
      key ← validated (validate_api_key verify now raw keys)
      assert_company_authorization companies r key
      assert_environment_authorization r key
      ok key
  ]

abbrev pub includes_all : List Text → List Text → Bool
includes_all scopes [] = true
includes_all scopes (s ∷ required) = includes scopes s && includes_all scopes required

-- `canActivate` of the guard of scopes, with the key of the request, if there is one.
unfoldable pub check_scopes : List Text → Option ApiKey → Result GuardError (Unit {0})
check_scopes [] key = ok tt
check_scopes (s ∷ required) none = err (forbidden "INSUFFICIENT_SCOPE")
check_scopes (s ∷ required) (some key) =
    reject_if (not (includes_all key.scopes (s ∷ required))) (forbidden "INSUFFICIENT_SCOPE")
