-- ===== src/ApiKeys/Tests.antt =====
-- Runs of the theorems on API keys.
use billing_api.Common.{
  ◌≡◌, refl, Bool, true, List, [], ◌∷◌, none, some, Text, codes, eq_text, split, includes, Memᴰ,
  All, ok, err,
}
use billing_api.ApiKeys.{
  ApiKey, live, active, key_revoked, revoke, record_usage, save, find_by_prefix, find_by_id,
  prefix_of, validate_api_key, authenticate, revoke_api_key,
}
use billing_api.ApiKeys.Guard
use billing_api.ApiKeys.Guard.Access.{Says, IsValidKey, IsAssigned, IsOfKey, guards-Authorized}
use billing_api.ApiKeys.Revocation.{authenticate-revoke_api_key, authenticate_revives}

abbrev raw : Text
raw = codes "bk_live_abcdefgh_secret"

abbrev key : ApiKey
key = record {
  id = codes "k";
  tenant_id = codes "t";
  name = codes "n";
  environment = live;
  key_prefix = codes "abcdefgh";
  key_hash = codes "h";
  scopes = [];
  integration_profile = none;
  status = active;
  expires_at = none;
  last_used_at = none;
  revoked_at = none;
  revoked_by = none;
}

abbrev before : List ApiKey
before = key ∷ []

abbrev after : List ApiKey
after = save (revoke (codes "u") 5 key) before

abbrev accepts : Text → Text → Bool
accepts hash t = true

raw_prefix : prefix_of raw ≡ some (codes "abcdefgh")
unfolding prefix_of split eq_text
raw_prefix = refl

by_id : find_by_id (codes "k") before ≡ some key
unfolding eq_text
by_id = refl

by_prefix : find_by_prefix (codes "abcdefgh") before ≡ some key
unfolding eq_text
by_prefix = refl

revoked_by_tenant : revoke_api_key (codes "t") (codes "k") (codes "u") 5 before ≡ ok after
unfolding revoke_api_key eq_text
revoked_by_tenant = refl

authenticate-revoke_api_key_example :
    authenticate accepts 9 raw after after ≡ (err key_revoked, after)
authenticate-revoke_api_key_example =
    authenticate-revoke_api_key accepts (codes "t") (codes "u") 5 raw (codes "abcdefgh") key before
      after 9 raw_prefix by_id by_prefix revoked_by_tenant

validated : validate_api_key accepts 4 raw before ≡ ok (record_usage 4 key)
unfolding validate_api_key prefix_of split eq_text
validated = refl

abbrev revoked_key : ApiKey
revoked_key = revoke (codes "u") 5 key

revoked_by_id : find_by_id (codes "k") (revoked_key ∷ []) ≡ some revoked_key
unfolding revoke eq_text
revoked_by_id = refl

-- The use began at 4, the revocation came at 5, and then the save.
authenticate_revives_example :
    (row : ApiKey) × (find_by_id
        (codes "k")
        (authenticate accepts 4 raw before (revoked_key ∷ [])).1
      ≡ some row)
    × (row.status ≡ active)
authenticate_revives_example =
    authenticate_revives accepts 4 raw before (revoked_key ∷ []) (record_usage 4 key) revoked_key
      validated revoked_by_id

abbrev company : Guard.Company
company = record {
  id = codes "c";
  tenant_id = codes "t";
  is_active = true;
  authorized_api_keys = codes "k" ∷ [];
}

abbrev writing_key : ApiKey
writing_key = record key { scopes = codes "invoices:write" ∷ [] }

abbrev request : Guard.Request
request = record {
  x_api_key = some raw;
  company_param = some (codes "c");
  company_field = none;
  environment_param = some (codes "PRODUCTION");
  environment_field = none;
  path = [];
}

guards-Authorized_example :
    ((t : Text) × (some raw ≡ some t)
      × IsValidKey accepts 4 (writing_key ∷ []) t (record_usage 4 writing_key))
    × ((id : Text)
        → Says (some (codes "c")) none id
        → IsAssigned (company ∷ []) (record_usage 4 writing_key) id)
    × ((environment : Text)
        → Says (some (codes "PRODUCTION")) none environment
        → IsOfKey (record_usage 4 writing_key) environment)
    × All (λ s. Memᴰ s writing_key.scopes) (codes "invoices:write" ∷ [])
unfolding validate_api_key prefix_of split eq_text includes Guard.authenticate_request
    Guard.assert_company_authorization Guard.assert_environment_authorization Guard.check_scopes
guards-Authorized_example =
    guards-Authorized accepts 4 (writing_key ∷ []) (company ∷ []) request
      (codes "invoices:write" ∷ []) (record_usage 4 writing_key) refl refl
