-- ===== src/Identity/Tests.antt =====
-- A user who logs in and refreshes the session, and the witnesses of the theorems on identity.
use billing_api.Common.{
  ℕ, ◌+◌, ◌≤◌, ◌≡◌, refl, Bool, true, false, [], ◌∷◌, Option, some, Text, eq_text, codes, trim,
  big_int, ok, err, arith,
}
use billing_api.Identity.{
  tenant_admin, active, inactive, User, RefreshTokenRecord, Accounts, Session, Services,
  invalid_refresh_token, thrown, issue, refresh, add_auth_duration_to_date,
  parse_auth_duration_to_milliseconds, parse_auth_duration_to_seconds, parse_duration, mark_as_used,
  login, find_user_by_email, save_user, is_active, find_by_hash, find_user_by_id,
}
use billing_api.Identity.Rotation.{refresh_once, refresh_races, issue_lasts, login_revives}

abbrev no_others : Accounts → Accounts
no_others a = a

abbrev services : Services
services = record {
  hash = λ t. t;
  lower = λ t. t;
  sign = λ p. some p.jti;
  verify = eq_text;
  jwt_expires_in = codes "15m";
  jwt_refresh_expires_in = codes "7d";
}

abbrev user : User
user = record {
  id = codes "u1";
  tenant_id = codes "t1";
  email = codes "a@b.cr";
  password_hash = codes "pw";
  role = tenant_admin;
  status = active;
  last_login_at = Option.none;
}

abbrev accounts : Accounts
accounts = record { users = user ∷ []; tokens = [] }

abbrev token_of : Text → ℕ → Bool → RefreshTokenRecord
token_of hash ends is_used = record {
  token_hash = hash;
  user_id = codes "u1";
  tenant_id = codes "t1";
  expires_at = ends;
  used = is_used;
}

abbrev logged_in : Accounts
logged_in = record accounts { tokens = token_of (codes "r0") 604800100 false ∷ [] }

abbrev session_of : Text → Text → Session
session_of access raw = record { access_token = access; refresh_token = raw; expires_in = 900 }

abbrev refreshed : Accounts
refreshed = record accounts {
  tokens = token_of (codes "r1") 604800200 false ∷ token_of (codes "r0") 604800100 true ∷ [];
}

-- Another request makes the user inactive.
abbrev deactivated : Accounts → Accounts
deactivated a = record a { users = record user { status = inactive } ∷ [] }

refresh_once_example :
    refresh services 300 no_others (codes "j2") (codes "r2") (codes "r0") refreshed
    ≡ (err invalid_refresh_token, refreshed)
unfolding refresh find_by_hash issue eq_text add_auth_duration_to_date
    parse_auth_duration_to_milliseconds parse_duration trim big_int parse_auth_duration_to_seconds
    find_user_by_id mark_as_used
refresh_once_example =
    refresh_once services 200 no_others (codes "j1") (codes "r1") (codes "r0") logged_in
      (session_of (codes "j1") (codes "r1")) refreshed 300 no_others (codes "j2") (codes "r2")
      (λ e. ground arith) refl

refresh_races_example :
    let other = refresh services 200 no_others (codes "j2") (codes "r2") (codes "r0") logged_in in
    ((session' : Session) × (other.0 ≡ ok session'))
    × ((refresh services 200
          (λ u. (refresh services 200 (λ v. v) (codes "j2") (codes "r2") (codes "r0") u).1)
          (codes "j1")
          (codes "r1")
          (codes "r0")
          logged_in).0
        ≡ ok (session_of (codes "j1") (codes "r1")))
unfolding refresh find_by_hash issue eq_text add_auth_duration_to_date
    parse_auth_duration_to_milliseconds parse_duration trim big_int parse_auth_duration_to_seconds
    find_user_by_id mark_as_used
refresh_races_example =
    refresh_races services 200 (codes "j1") (codes "r1") (codes "j2") (codes "r2") (codes "r0")
      logged_in (session_of (codes "j1") (codes "r1")) refreshed (λ p. (p.jti, refl)) refl

issue_lasts_example :
    (1 ≤ 900)
    × ((r : RefreshTokenRecord) × (find_by_hash (codes "r0") logged_in.tokens ≡ some r)
        × (100 + 1000 ≤ r.expires_at)
        × (r.expires_at ≤ 8640000000000000))
unfolding issue eq_text add_auth_duration_to_date parse_auth_duration_to_milliseconds parse_duration
    trim big_int parse_auth_duration_to_seconds
issue_lasts_example =
    issue_lasts services 100 (codes "j0") (codes "r0") user accounts
      (session_of (codes "j0") (codes "r0")) logged_in refl

-- A duration that ends beyond the last time of a `Date`.
too_long :
    (issue
      (record services { jwt_refresh_expires_in = codes "200000000d" })
      100
      (codes "j0")
      (codes "r0")
      user
      accounts).0
    ≡ err thrown
unfolding issue eq_text add_auth_duration_to_date parse_auth_duration_to_milliseconds parse_duration
    trim big_int parse_auth_duration_to_seconds
too_long = refl

abbrev late_login : Accounts
late_login = record {
  users = record user { last_login_at = some 100 } ∷ [];
  tokens = token_of (codes "r0") 604800100 false ∷ [];
}

login_revives_example :
    (user' : User) × (find_user_by_id (codes "u1") late_login.users ≡ some user')
    × (is_active user' ≡ true)
unfolding login find_user_by_email find_user_by_id save_user eq_text issue add_auth_duration_to_date
    parse_auth_duration_to_milliseconds parse_duration trim big_int parse_auth_duration_to_seconds
login_revives_example =
    login_revives services 100 deactivated (codes "j0") (codes "r0") (codes "t1") (codes "a@b.cr")
      (codes "pw") accounts (session_of (codes "j0") (codes "r0")) late_login user
      (record user { status = inactive }) refl refl refl
