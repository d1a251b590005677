-- ===== src/ApiKeys.antt =====
-- src/modules/api-keys: domain/entities/api-key.entity.ts, the handlers validate-api-key and
-- revoke-api-key, and the queries of prisma-api-key.repository.ts that they use. The table is a list
-- of keys; a time is a number.
--
-- Parameter: `verify`, which says whether argon2 accepts a key for a hash. The save of a use is not
-- awaited: `seen` is the table that the lookup saw, `store` the table that the save meets.
pub mod Revocation
pub mod Guard
mod Tests
use billing_api.Common.{
  ℕ, Bool, true, false, ◌||◌, not, List, [], ◌∷◌, Option, none, some, Text, codes, eq_text, split,
  ltb, if◌then◌else◌, find, or_option, Result, ok, err, ◌>>=◌, ◌>>◌, reject_if,
}

pub data ApiKeyStatus : Type 0 where
  active revoked expired : ApiKeyStatus

pub data ApiKeyEnvironment : Type 0 where
  live test : ApiKeyEnvironment

pub record ApiKey : Type 0 where
  pub id : Text
  pub tenant_id : Text
  pub name : Text
  pub environment : ApiKeyEnvironment
  pub key_prefix : Text
  pub key_hash : Text
  pub scopes : List Text
  pub integration_profile : Option Text
  pub status : ApiKeyStatus
  pub expires_at : Option ℕ
  pub last_used_at : Option ℕ
  pub revoked_at : Option ℕ
  pub revoked_by : Option Text

pub data ApiKeyError : Type 0 where
  key_invalid key_revoked key_expired key_not_found : ApiKeyError

abbrev pub is_revoked : ApiKey → Bool
is_revoked k = elim k.status [ revoked ↦ true | _ ↦ false ]

-- `expiresAt && new Date() > expiresAt`
abbrev is_past : ℕ → Option ℕ → Bool
is_past now none = false
is_past now (some t) = ltb t now

abbrev pub is_expired : ℕ → ApiKey → Bool
is_expired now k = is_past now k.expires_at || (elim k.status [ expired ↦ true | _ ↦ false ])

unfoldable pub revoke : Text → ℕ → ApiKey → ApiKey
revoke by now k =
    if is_revoked k
    then k
    else record k { status = revoked; revoked_at = some now; revoked_by = some by }

abbrev pub record_usage : ℕ → ApiKey → ApiKey
record_usage now k = record k { last_used_at = some now }

-- The update of `save`: a field that is `undefined` is left as it is.
abbrev pub overwrite : ApiKey → ApiKey → ApiKey
overwrite k row = record row {
  status = k.status;
  last_used_at = or_option k.last_used_at row.last_used_at;
  revoked_at = or_option k.revoked_at row.revoked_at;
  revoked_by = or_option k.revoked_by row.revoked_by;
}

-- The upsert.
unfoldable pub save : ApiKey → List ApiKey → List ApiKey
save k [] = k ∷ []
save k (row ∷ rest) = if eq_text row.id k.id then overwrite k row ∷ rest else row ∷ save k rest

abbrev pub find_by_prefix : Text → List ApiKey → Option ApiKey
find_by_prefix prefix table = find (λ k. eq_text k.key_prefix prefix) table

abbrev pub find_by_id : Text → List ApiKey → Option ApiKey
find_by_id id table = find (λ k. eq_text k.id id) table

-- The prefix of `bk_{env}_{prefix}_{secret}`.
abbrev of_parts : List Text → Option Text
of_parts (bk ∷ env ∷ (c ∷ prefix) ∷ (d ∷ secret) ∷ []) =
    if eq_text bk (codes "bk") then some (c ∷ prefix) else none
of_parts _ = none

unfoldable pub prefix_of : Text → Option Text
unfolding split
prefix_of raw = of_parts (split b'_' raw)

abbrev pub require {ℓ} : {A : Type ℓ} → Option A → ApiKeyError → Result ApiKeyError A
require none e = err e
require (some a) e = ok a

module _ (verify : Text → Text → Bool) where
  -- `execute` up to the save.
  unfoldable pub validate_api_key : ℕ → Text → List ApiKey → Result ApiKeyError ApiKey
  validate_api_key now raw seen = do
    prefix ← require (prefix_of raw) key_invalid
    key ← require (find_by_prefix prefix seen) key_invalid
    reject_if (is_revoked key) key_revoked
    reject_if (is_expired now key) key_expired
    reject_if (not (verify key.key_hash raw)) key_invalid
    ok (record_usage now key)

  -- The result, and the table after the save.
  abbrev save_use :
      List ApiKey → Result ApiKeyError ApiKey → Result ApiKeyError ApiKey × List ApiKey
  save_use store (err e) = (err e, store)
  save_use store (ok key) = (ok key, save key store)

  unfoldable pub authenticate :
      ℕ → Text → List ApiKey → List ApiKey → Result ApiKeyError ApiKey × List ApiKey
  authenticate now raw seen store = save_use store (validate_api_key now raw seen)

-- The key that a tenant may revoke.
abbrev of_tenant : Text → ApiKey → Bool
of_tenant tenant_id k = eq_text k.tenant_id tenant_id

unfoldable pub revoke_api_key :
    Text → Text → Text → ℕ → List ApiKey → Result ApiKeyError (List ApiKey)
revoke_api_key tenant_id id by now table = do
  key ← require (find_by_id id table) key_not_found
  reject_if (not (of_tenant tenant_id key)) key_not_found
  ok (save (revoke by now key) table)
