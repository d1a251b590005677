-- ===== src/Identity/Rotation.antt =====
-- The rotation of refresh tokens and the length of sessions.
use billing_api.Common.{
  eq_text_other, eq_text_iff, ℕ, ◌+◌, ◌≤◌, ◌≡◌, ◌≢◌, ◌∙◌, sym, ap, inl, inr, refl, true, false,
  List, [], ◌∷◌, some, Text, eq_text, codes, ok, err, Option-cases, arith,
}
use billing_api.Identity
use billing_api.Identity.Durations.{milliseconds, seconds}

-- A token that was marked is not usable.
mark_as_used-find_by_hash :
    (s : Identity.Services) (now : ℕ) (hash : Text) (tokens : List Identity.RefreshTokenRecord)
    → Identity.is_usable s now (Identity.find_by_hash hash (Identity.mark_as_used hash tokens))
      ≡ false
unfolding Identity.find_by_hash Identity.mark_as_used
mark_as_used-find_by_hash s now hash [] = refl
mark_as_used-find_by_hash s now hash (r ∷ rs) =
    ground (arith, mark_as_used-find_by_hash s now hash rs)

-- What the tokens are after a refresh or a login has issued some.
issue-tokens :
    (s : Identity.Services) (now : ℕ) (jti raw : Text) (user : Identity.User)
    (a : Identity.Accounts) (session : Identity.Session) (b : Identity.Accounts)
    → Identity.issue s now jti raw user a ≡ (ok session, b)
    → (r : Identity.RefreshTokenRecord) × (b.tokens ≡ r ∷ a.tokens)
      × (b.users ≡ a.users)
      × (r.token_hash ≡ s.hash raw)
      × (Identity.add_auth_duration_to_date s.lower now s.jwt_refresh_expires_in
          ≡ some r.expires_at)
      × (session.expires_in
          ≡ Identity.parse_auth_duration_to_seconds s.lower s.jwt_expires_in (codes "15m"))
unfolding Identity.issue
issue-tokens s now jti raw user a session b e =
    elim (Option-cases (s.sign (Identity.payload_of s jti user))) [
      | inl throws ↦ absurd (ground arith)
      | inr (access_token, signed) ↦
          elim (Option-cases
            (Identity.add_auth_duration_to_date s.lower now s.jwt_refresh_expires_in)) [
              | inl invalid ↦ absurd (ground arith)
              | inr (ends, valid) ↦ (
                record {
                  token_hash = s.hash raw;
                  user_id = user.id;
                  tenant_id = user.tenant_id;
                  expires_at = ends;
                  used = false;
                },
                ground arith,
                ground arith,
                refl,
                valid,
                ground arith,
              )
            ]
    ]

-- The user of a refresh that succeeds.
refresh-issues :
    (s : Identity.Services) (now : ℕ) (others : Identity.Accounts → Identity.Accounts)
    (jti raw token : Text) (a : Identity.Accounts) (session : Identity.Session)
    (b : Identity.Accounts)
    → Identity.refresh s now others jti raw token a ≡ (ok session, b)
    → (user : Identity.User) × (Identity.issue s now jti raw user
          (record (others a) { tokens = Identity.mark_as_used (s.hash token) (others a).tokens })
        ≡ (ok session, b))
unfolding Identity.refresh
refresh-issues s now others jti raw token a session b e =
    elim (Option-cases (Identity.owner s (Identity.find_by_hash (s.hash token) a.tokens) a.users)) [
      | inl missing ↦ absurd (ground arith)
      | inr (user, found) ↦ (user, ground arith)
    ]

-- A refresh token is accepted once: after a refresh with it, however it was interrupted, another one
-- is refused and changes nothing, at any time, if the new token has another hash.
pub refresh_once :
    (s : Identity.Services) (now : ℕ) (others : Identity.Accounts → Identity.Accounts)
    (jti raw token : Text) (a : Identity.Accounts) (session : Identity.Session)
    (b : Identity.Accounts) (later : ℕ) (others' : Identity.Accounts → Identity.Accounts)
    (jti' raw' : Text)
    → s.hash raw ≢ s.hash token
    → Identity.refresh s now others jti raw token a ≡ (ok session, b)
    → Identity.refresh s later others' jti' raw' token b ≡ (err Identity.invalid_refresh_token, b)
unfolding Identity.refresh Identity.find_by_hash
refresh_once s now others jti raw token a session b later others' jti' raw' fresh e =
    let (user, issued) = refresh-issues s now others jti raw token a session b e in
    let (r, tokens, _, hashed, _, _) =
      issue-tokens s now jti raw user
        (record (others a) { tokens = Identity.mark_as_used (s.hash token) (others a).tokens })
        session b issued in
    let marked = mark_as_used-find_by_hash s later (s.hash token) (others a).tokens in
    let other : eq_text r.token_hash (s.hash token) ≡ false =
      eq_text_other r.token_hash (s.hash token) (λ same. fresh (sym hashed ∙ same)) in
    let unusable : Identity.is_usable s later (Identity.find_by_hash (s.hash token) b.tokens)
        ≡ false =
      ap (λ ts. Identity.is_usable s later (Identity.find_by_hash (s.hash token) ts)) tokens
      ∙ ground arith in
    ground arith

-- Tokens are issued if the signature does not throw and the date is valid.
issue-succeeds :
    (s : Identity.Services) (now : ℕ) (jti raw access_token : Text) (ends : ℕ)
    (user : Identity.User) (a : Identity.Accounts)
    → s.sign (Identity.payload_of s jti user) ≡ some access_token
    → Identity.add_auth_duration_to_date s.lower now s.jwt_refresh_expires_in ≡ some ends
    → (session : Identity.Session) × ((Identity.issue s now jti raw user a).0 ≡ ok session)
unfolding Identity.issue
issue-succeeds s now jti raw access_token ends user a signed valid = (
  record {
    access_token = access_token;
    refresh_token = raw;
    expires_in = Identity.parse_auth_duration_to_seconds s.lower s.jwt_expires_in (codes "15m");
  },
  ground arith,
)

-- The response does not depend on the tables.
issue-same :
    (s : Identity.Services) (now : ℕ) (jti raw : Text) (user : Identity.User)
    (a b : Identity.Accounts)
    → (Identity.issue s now jti raw user a).0 ≡ (Identity.issue s now jti raw user b).0
unfolding Identity.issue
issue-same s now jti raw user a b = elim (Option-cases (s.sign (Identity.payload_of s jti user))) [
  | inl throws ↦ ground arith
  | inr (access_token, signed) ↦
      elim (Option-cases
        (Identity.add_auth_duration_to_date s.lower now s.jwt_refresh_expires_in)) [
          | inl invalid ↦ ground arith
          | inr (ends, valid) ↦ ground arith
        ]
]

-- A refresh that is interrupted, between its reads and its writes, by another refresh with the same
-- token succeeds if it does alone, and so does the other, if the signature does not throw: both issue
-- tokens.
pub refresh_races :
    (s : Identity.Services) (now : ℕ) (jti raw jti' raw' token : Text) (a : Identity.Accounts)
    (session : Identity.Session) (b : Identity.Accounts)
    → ((p : Identity.JwtPayload) → (t : Text) × (s.sign p ≡ some t))
    → Identity.refresh s now (λ u. u) jti raw token a ≡ (ok session, b)
    → let other = Identity.refresh s now (λ u. u) jti' raw' token a in
      ((session' : Identity.Session) × (other.0 ≡ ok session'))
      × ((Identity.refresh s now
            (λ u. (Identity.refresh s now (λ v. v) jti' raw' token u).1)
            jti
            raw
            token
            a).0
          ≡ ok session)
unfolding Identity.refresh
refresh_races s now jti raw jti' raw' token a session b signs e =
    elim (Option-cases (Identity.owner s (Identity.find_by_hash (s.hash token) a.tokens) a.users)) [
      | inl missing ↦ absurd (ground arith)
      | inr (user, found) ↦
          let marked : Identity.Accounts = record a {
            tokens = Identity.mark_as_used (s.hash token) a.tokens;
          } in
          let met = (Identity.refresh s now (λ v. v) jti' raw' token a).1 in
          let met_marked : Identity.Accounts = record met {
            tokens = Identity.mark_as_used (s.hash token) met.tokens;
          } in
          let issued : Identity.issue s now jti raw user marked ≡ (ok session, b) = ground arith in
          let (_, _, _, _, ends, _) = issue-tokens s now jti raw user marked session b issued in
          let (access_token, signed) = signs (Identity.payload_of s jti' user) in
          let (session', opened) =
            issue-succeeds s now jti' raw' access_token _ user marked signed ends in
          let alike = issue-same s now jti raw user met_marked marked in
          ((session', ground arith), ground arith)
    ]

-- Where tokens are issued, whatever durations are configured, the refresh token ends at least a second
-- later and at a time that a `Date` can hold, and the access token is said to last at least a second.
pub issue_lasts :
    (s : Identity.Services) (now : ℕ) (jti raw : Text) (user : Identity.User)
    (a : Identity.Accounts) (session : Identity.Session) (b : Identity.Accounts)
    → Identity.issue s now jti raw user a ≡ (ok session, b)
    → (1 ≤ session.expires_in)
      × ((r : Identity.RefreshTokenRecord) × (Identity.find_by_hash (s.hash raw) b.tokens ≡ some r)
          × (now + 1000 ≤ r.expires_at)
          × (r.expires_at ≤ 8640000000000000))
unfolding Identity.find_by_hash
issue_lasts s now jti raw user a session b e =
    let (r, tokens, _, hashed, ends, lasts) = issue-tokens s now jti raw user a session b e in
    let (least, most) = milliseconds s.lower now s.jwt_refresh_expires_in r.expires_at ends in
    (
      rw lasts (seconds s.lower s.jwt_expires_in),
      (
        r,
        ap (Identity.find_by_hash (s.hash raw)) tokens
            ∙ ground (arith, (eq_text_iff r.token_hash (s.hash raw)).1 hashed),
        least,
        most,
      ),
    )

save_user-found :
    (user : Identity.User) (us : List Identity.User) (found : Identity.User)
    → Identity.find_user_by_id user.id us ≡ some found
    → Identity.find_user_by_id user.id (Identity.save_user user us)
      ≡ some (Identity.updated user found)
unfolding Identity.find_user_by_id Identity.save_user
save_user-found user [] found e = cc
save_user-found user (u ∷ us) found e = ground (arith, save_user-found user us found)

-- The save of a login that has read its user makes the user active in the table that it meets, also
-- where the user was made inactive since it was read.
pub login_revives :
    (s : Identity.Services) (now : ℕ) (others : Identity.Accounts → Identity.Accounts)
    (jti raw tenant_id email password : Text) (a : Identity.Accounts) (session : Identity.Session)
    (b : Identity.Accounts) (user found : Identity.User)
    → Identity.login s now others jti raw tenant_id email password a ≡ (ok session, b)
    → Identity.find_user_by_email tenant_id (s.lower email) a.users ≡ some user
    → Identity.find_user_by_id user.id (others a).users ≡ some found
    → (user' : Identity.User) × (Identity.find_user_by_id user.id b.users ≡ some user')
      × (Identity.is_active user' ≡ true)
unfolding Identity.login
login_revives s now others jti raw tenant_id email password a session b user found e read meets =
    let logged_in : Identity.User = record user { last_login_at = some now } in
    let saved : Identity.Accounts = record (others a) {
      users = Identity.save_user logged_in (others a).users;
    } in
    let issued : Identity.issue s now jti raw user saved ≡ (ok session, b) = ground arith in
    let (_, _, users, _, _, _) = issue-tokens s now jti raw user saved session b issued in
    (
      Identity.updated logged_in found,
      ap (Identity.find_user_by_id user.id) users
          ∙ save_user-found logged_in (others a).users found meets,
      ground arith,
    )
