-- ===== src/Identity.antt =====
-- src/modules/identity: login and the rotation of refresh tokens, in
-- application/use-cases/login, refresh-token and shared, with the users and the refresh tokens of
-- infrastructure/persistence.
--
-- SHA-256, argon2, the signature of an access token, which may throw, and the lower case of a text
-- are parameters; random values are arguments. Durations are exact: the source multiplies in floating
-- point, which is exact up to 2 ^ 53, beyond every time of a `Date`; only an `expires_in` of millions
-- of years is rounded there. A user's names are left out, and the users' e-mail addresses are
-- valid. `others` is what other requests do between the reads of a request and its first write.
mod Durations
mod Rotation
mod Tests
use billing_api.Common.{
  ℕ, ◌+◌, ◌*◌, ◌/◌, Bool, true, false, not, ◌&&◌, List, [], ◌∷◌, Option, none, some, Text, eq_text,
  codes, ltb, leb, ◌==◌, is_digit, big_int, trim, if◌then◌else◌, Result, ok, err,
}

pub data UserRole : Type 0 where
  tenant_admin member read_only : UserRole

pub data UserStatus : Type 0 where
  active inactive pending_verification : UserStatus

pub record User : Type 0 where
  pub id : Text
  pub tenant_id : Text
  pub email : Text
  pub password_hash : Text
  pub role : UserRole
  pub status : UserStatus
  pub last_login_at : Option ℕ

pub record RefreshTokenRecord : Type 0 where
  pub token_hash : Text
  pub user_id : Text
  pub tenant_id : Text
  pub expires_at : ℕ
  pub used : Bool

pub record Accounts : Type 0 where
  pub users : List User
  pub tokens : List RefreshTokenRecord

pub data IdentityError : Type 0 where
  invalid_credentials invalid_refresh_token : IdentityError
  -- An `Error` of the signature, or of a save with an invalid date.
  thrown : IdentityError

pub record JwtPayload : Type 0 where
  pub sub : Text
  pub tenant_id : Text
  pub role : UserRole
  pub jti : Text

pub record Session : Type 0 where
  pub access_token : Text
  pub refresh_token : Text
  pub expires_in : ℕ

abbrev pub is_active : User → Bool
is_active user = elim user.status [ active ↦ true | _ ↦ false ]

-- The unit of a duration in milliseconds.
abbrev pub unit_in_ms : ℕ → Option ℕ
unit_in_ms c =
    if c == b's'
    then some 1000
    else if c == b'm'
    then some 60000
    else if c == b'h'
    then some 3600000
    else if c == b'd'
    then some 86400000
    else none

-- `/^(\d+)([smhd])$/`: the digits and the unit.
unfoldable pub match_duration : Text → Option (Text × ℕ)
match_duration [] = none
match_duration (c ∷ []) = none
match_duration (c ∷ d ∷ s) =
    let rest = match_duration (d ∷ s) in
    if not (is_digit c) then none else elim rest [
      | some (digits, unit) ↦ some (c ∷ digits, unit)
      | none ↦ elim s [
        | [] ↦ elim (unit_in_ms d) [ none ↦ none | some ms ↦ some (c ∷ [], ms) ]
        | _ ∷ _ ↦ none
      ]
    ]

abbrev pub scaled : Option (Text × ℕ) → Option ℕ
scaled none = none
scaled (some (digits, ms)) =
    let amount = big_int digits in
    if leb amount 9007199254740991 && ltb 0 amount then some (amount * ms) else none

-- The first value that is there, or the last.
abbrev pub first_of : Option ℕ → Option ℕ → ℕ → ℕ
first_of (some a) b c = a
first_of none (some b) c = b
first_of none none c = c

-- `new Date(ms)`, with `none` for an invalid date.
abbrev pub date_of : ℕ → Option ℕ
date_of ms = if leb ms 8640000000000000 then some ms else none

module _ (lower : Text → Text) where
  unfoldable pub parse_duration : Text → Option ℕ
  unfolding match_duration
  parse_duration duration = scaled (match_duration (lower (trim duration)))

  unfoldable pub parse_auth_duration_to_milliseconds : Text → Text → ℕ
  parse_auth_duration_to_milliseconds duration fallback =
      first_of (parse_duration duration) (parse_duration fallback) (7 * 86400000)

  abbrev pub in_seconds : Option ℕ → Option ℕ
  in_seconds none = none
  in_seconds (some ms) = some (ms / 1000)

  unfoldable pub parse_auth_duration_to_seconds : Text → Text → ℕ
  parse_auth_duration_to_seconds duration fallback =
      first_of (in_seconds (parse_duration duration)) (in_seconds (parse_duration fallback)) 900

  -- `addAuthDurationToDate(now, duration)`; beyond the last time of a `Date` it is an invalid one.
  unfoldable pub add_auth_duration_to_date : ℕ → Text → Option ℕ
  add_auth_duration_to_date now duration =
      date_of (now + parse_auth_duration_to_milliseconds duration (codes "7d"))

unfoldable pub find_by_hash : Text → List RefreshTokenRecord → Option RefreshTokenRecord
find_by_hash hash [] = none
find_by_hash hash (r ∷ rs) = if eq_text r.token_hash hash then some r else find_by_hash hash rs

unfoldable pub mark_as_used : Text → List RefreshTokenRecord → List RefreshTokenRecord
mark_as_used hash [] = []
mark_as_used hash (r ∷ rs) =
    (if eq_text r.token_hash hash then record r { used = true } else r) ∷ mark_as_used hash rs

unfoldable pub find_user_by_id : Text → List User → Option User
find_user_by_id id [] = none
find_user_by_id id (u ∷ us) = if eq_text u.id id then some u else find_user_by_id id us

unfoldable pub find_user_by_email : Text → Text → List User → Option User
find_user_by_email tenant_id email [] = none
find_user_by_email tenant_id email (u ∷ us) =
    if eq_text u.tenant_id tenant_id && eq_text u.email email
    then some u
    else find_user_by_email tenant_id email us

-- `save` of a user that is there: the password's hash and the tenant stay.
abbrev pub updated : User → User → User
updated user old = record old {
  email = user.email;
  role = user.role;
  status = user.status;
  last_login_at = user.last_login_at;
}

unfoldable pub save_user : User → List User → List User
save_user user [] = user ∷ []
save_user user (u ∷ us) =
    if eq_text u.id user.id then updated user u ∷ us else u ∷ save_user user us

-- What the two handlers are given.
pub record Services : Type 0 where
  pub hash : Text → Text
  pub lower : Text → Text
  -- `none` is a signature that throws.
  pub sign : JwtPayload → Option Text
  pub verify : Text → Text → Bool
  pub jwt_expires_in : Text
  pub jwt_refresh_expires_in : Text

module _ (s : Services) where
  abbrev pub Attempt : Type 0
  Attempt = Result IdentityError Session × Accounts

  abbrev pub payload_of : Text → User → JwtPayload
  payload_of jti user = record {
    sub = user.id;
    tenant_id = user.tenant_id;
    role = user.role;
    jti = jti;
  }

  -- The save of a refresh token, and the response.
  abbrev pub save_token : Text → Text → User → Option ℕ → Accounts → Attempt
  save_token access_token raw user none a = (err thrown, a)
  save_token access_token raw user (some expires_at) a = (
    ok (record {
      access_token = access_token;
      refresh_token = raw;
      expires_in = parse_auth_duration_to_seconds s.lower s.jwt_expires_in (codes "15m");
    }),
    record a {
      tokens =
          record {
            token_hash = s.hash raw;
            user_id = user.id;
            tenant_id = user.tenant_id;
            expires_at = expires_at;
            used = false;
          }
          ∷ a.tokens;
    },
  )

  abbrev pub issue_signed : ℕ → Text → User → Option Text → Accounts → Attempt
  issue_signed now raw user none a = (err thrown, a)
  issue_signed now raw user (some access_token) a =
      save_token access_token raw user
        (add_auth_duration_to_date s.lower now s.jwt_refresh_expires_in) a

  -- The tokens for a user, with which both handlers end.
  unfoldable pub issue : ℕ → Text → Text → User → Accounts → Attempt
  issue now jti raw user a = issue_signed now raw user (s.sign (payload_of jti user)) a

  -- A login from the user that was found.
  abbrev pub login_user :
      ℕ → (Accounts → Accounts) → Text → Text → Text → Option User → Accounts → Attempt
  login_user now others jti raw password none a = (err invalid_credentials, a)
  login_user now others jti raw password (some user) a =
      if is_active user && s.verify user.password_hash password
      then (let b = others a in
          issue now jti raw user
            (record b { users = save_user (record user { last_login_at = some now }) b.users }))
      else (err invalid_credentials, a)

  unfoldable pub login :
      ℕ → (Accounts → Accounts) → Text → Text → Text → Text → Text → Accounts → Attempt
  login now others jti raw tenant_id email password a =
      login_user now others jti raw password (find_user_by_email tenant_id (s.lower email) a.users)
        a

  abbrev pub is_usable : ℕ → Option RefreshTokenRecord → Bool
  is_usable now none = false
  is_usable now (some r) = not r.used && not (ltb r.expires_at now)

  abbrev pub owner : Option RefreshTokenRecord → List User → Option User
  owner none us = none
  owner (some r) us = find_user_by_id r.user_id us

  abbrev pub rotate :
      ℕ → (Accounts → Accounts) → Text → Text → Text → Option User → Accounts → Attempt
  rotate now others jti raw token none a = (err invalid_refresh_token, a)
  rotate now others jti raw token (some user) a =
      if is_active user
      then (let b = others a in
          issue now jti raw user (record b { tokens = mark_as_used (s.hash token) b.tokens }))
      else (err invalid_refresh_token, a)

  unfoldable pub refresh : ℕ → (Accounts → Accounts) → Text → Text → Text → Accounts → Attempt
  refresh now others jti raw token a =
      let found = find_by_hash (s.hash token) a.tokens in
      if is_usable now found
      then rotate now others jti raw token (owner found a.users) a
      else (err invalid_refresh_token, a)
