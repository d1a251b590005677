-- ===== src/Companies/Tests.antt =====
-- A company with a default activity, and the witnesses of the theorems on profiles.
use billing_api.Common.{
  ◌≡◌, ◌≢◌, refl, Memᴰ, Bool, true, false, [], ◌∷◌, none, some, Text, codes, eq_text, trim,
  trim_start, is_space, all_digits, find, arith,
}
use billing_api.Companies.{
  FiscalAddress, FiscalContact, EconomicActivity, FiscalProfile, CompanyTables, UpsertFiscalProfile,
  with_code, with_id, set_default_activity, set_activity_billing_enabled, enable_in,
  upsert_fiscal_profile, create_code, create_address, create_contact, all_code_units,
}
use billing_api.Companies.Profiles.{
  Synced, set_default_activity-IsDefault, set_activity_billing_enabled-flag,
  upsert_fiscal_profile_unsyncs,
}

abbrev address : FiscalAddress
address = record {
  province = codes "1";
  canton = codes "01";
  district = codes "02";
  barrio = none;
  otras_senas = codes "Calle 1";
}

abbrev contact : FiscalContact
contact = record { email = codes "a@b.cr"; phone_country_code = none; phone_number = none }

abbrev software : EconomicActivity
software = record {
  id = codes "a1";
  code = codes "620210";
  hacienda_status = codes "A";
  billing_enabled = true;
}

abbrev profile : FiscalProfile
profile = record {
  economic_activity_code = codes "9609.0";
  proveedor_sistemas = none;
  address = address;
  contact = contact;
  default_economic_activity_id = none;
}

abbrev tables : CompanyTables
tables = record { is_found = true; activities = software ∷ []; profile = some profile }

abbrev with_default : CompanyTables
with_default = record tables {
  profile = some (record profile {
    default_economic_activity_id = some (codes "a1");
    economic_activity_code = codes "620210";
  });
}

abbrev other_code : UpsertFiscalProfile
other_code = record {
  role = codes "TENANT_ADMIN";
  economic_activity_code = codes "9609.0";
  proveedor_sistemas = none;
  address = address;
  contact = contact;
}

abbrev any_email : Text → Bool
any_email t = true

set_default_activity-IsDefault_example :
    (a : EconomicActivity) × (p : FiscalProfile) × Memᴰ a tables.activities
    × (a.code ≡ codes "620210")
    × (a.hacienda_status ≡ codes "A")
    × (a.billing_enabled ≡ true)
    × (with_default.profile ≡ some p)
    × (p.default_economic_activity_id ≡ some a.id)
    × (p.economic_activity_code ≡ a.code)
    × (with_default.activities ≡ tables.activities)
unfolding set_default_activity eq_text
set_default_activity-IsDefault_example =
    set_default_activity-IsDefault (codes "620210") tables with_default refl

abbrev disabled : CompanyTables
disabled = record with_default { activities = record software { billing_enabled = false } ∷ [] }

set_activity_billing_enabled-flag_example :
    (a : EconomicActivity) × (find (with_code (codes "620210")) with_default.activities ≡ some a)
    × (find (with_code (codes "620210")) disabled.activities
        ≡ some (record a { billing_enabled = false }))
    × ((id : Text)
        → id ≢ a.id
        → find (with_id id) disabled.activities ≡ find (with_id id) with_default.activities)
    × (disabled.profile ≡ with_default.profile)
    × (Synced with_default → Synced disabled)
unfolding set_activity_billing_enabled enable_in eq_text
set_activity_billing_enabled-flag_example =
    set_activity_billing_enabled-flag (codes "620210") false with_default disabled refl

abbrev after_upsert : CompanyTables
after_upsert = record with_default {
  profile = some (record profile { default_economic_activity_id = some (codes "a1") });
}

upsert_fiscal_profile_unsyncs_example : ¬ Synced after_upsert
unfolding upsert_fiscal_profile create_code create_address create_contact all_code_units trim
    trim_start is_space eq_text all_digits
upsert_fiscal_profile_unsyncs_example =
    upsert_fiscal_profile_unsyncs any_email other_code with_default after_upsert
      (record profile {
        default_economic_activity_id = some (codes "a1");
        economic_activity_code = codes "620210";
      })
      software refl refl refl (λ e. ground arith) refl
