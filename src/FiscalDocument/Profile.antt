-- ===== src/FiscalDocument/Profile.antt =====
-- application/fiscal-document.service.ts, getReadyCompanyFiscalProfile and
-- resolveIssuerEconomicActivity: the profile and the economic activity that a company issues with.
use billing_api.Common.{
  Bool, ◌&&◌, ◌||◌, List, [], ◌∷◌, Option, none, some, Text, codes, eq_text, if◌then◌else◌, find,
  filter, Result, ok, err, ◌>>=◌, ◌>>◌, reject_if,
}
use billing_api.FiscalDocument.{ServiceError, bad_request}
use billing_api.FiscalDocument.Validation.{text_of, is_blank, required_receiver_text}
use billing_api.FiscalDocument.Store.{CompanyFiscalProfile, CompanyEconomicActivity, Store, require}

abbrev is_valid_issuer_economic_activity : CompanyEconomicActivity → Bool
is_valid_issuer_economic_activity a = eq_text a.hacienda_status (codes "A") && a.billing_enabled

check_default_activity : Text → Option CompanyEconomicActivity → Result ServiceError Text
check_default_activity company_id none = err (bad_request "DEFAULT_ECONOMIC_ACTIVITY_INVALID")
check_default_activity company_id (some a) =
    if eq_text a.company_id company_id && is_valid_issuer_economic_activity a
    then ok a.code
    else err (bad_request "DEFAULT_ECONOMIC_ACTIVITY_INVALID")

-- The company's activities, all and the valid ones.
only_activity :
    List CompanyEconomicActivity → List CompanyEconomicActivity → Result ServiceError Text
only_activity activities (a ∷ []) = ok a.code
only_activity [] _ = err (bad_request "ECONOMIC_ACTIVITY_MISSING")
only_activity (_ ∷ _) _ = err (bad_request "DEFAULT_ECONOMIC_ACTIVITY_MISSING")

unfoldable pub resolve_issuer_economic_activity :
    List CompanyEconomicActivity → CompanyFiscalProfile → Text → Result ServiceError Text
unfolding check_default_activity only_activity
resolve_issuer_economic_activity table profile company_id =
    let activities = filter (λ a. eq_text a.company_id company_id) table in
    elim (text_of profile.default_economic_activity_id) [
      | [] ↦ only_activity activities (filter is_valid_issuer_economic_activity activities)
      | c ∷ id ↦ check_default_activity company_id (find (λ a. eq_text a.id (c ∷ id)) table)
    ]

-- `!value?.trim()`
abbrev is_missing : Option Text → Bool
is_missing value = is_blank (required_receiver_text value)

unfoldable pub get_ready_company_fiscal_profile :
    Store → Text → Text → Result ServiceError (CompanyFiscalProfile × Text)
get_ready_company_fiscal_profile store tenant_id company_id = do
  profile ←
      require
        (find (λ p. eq_text p.tenant_id tenant_id && eq_text p.company_id company_id)
          store.profiles)
        (bad_request "COMPANY_FISCAL_PROFILE_REQUIRED")
  code ← resolve_issuer_economic_activity store.activities profile company_id
  reject_if
      (is_missing (some code)
        || is_missing profile.province
        || is_missing profile.canton
        || is_missing profile.district
        || is_missing profile.otras_senas
        || is_missing profile.email)
      (bad_request "COMPANY_FISCAL_PROFILE_INCOMPLETE")
  ok (profile, code)
