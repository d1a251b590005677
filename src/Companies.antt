-- ===== src/Companies.antt =====
-- src/modules/companies: the fiscal profile of a company and its economic activities, with the value
-- objects EconomicActivityCode, FiscalAddress and FiscalContact and the handlers
-- upsert-company-fiscal-profile, set-default-economic-activity and set-activity-billing-enabled.
--
-- The tables are those of one company. Parameter: `is_email`, the pattern of an e-mail address.
mod Profiles
mod Tests
use billing_api.Common.{
  ℕ, Bool, true, false, not, ◌&&◌, ◌||◌, List, [], ◌∷◌, Option, none, some, or_option, Text, codes,
  eq_text, trim, length, all_digits, is_digit, ltb, leb, ◌==◌, is_empty, find, if◌then◌else◌,
  Result, ok, err, ◌>>=◌, ◌>>◌, reject_if,
}
use billing_api.FiscalDocument.{ServiceError, bad_request, not_found, forbidden, thrown}

abbrev pub is_code_unit : ℕ → Bool
is_code_unit c = is_digit c || c == b'.'

unfoldable pub all_code_units : Text → Bool
all_code_units [] = true
all_code_units (c ∷ s) = is_code_unit c && all_code_units s

-- `EconomicActivityCode.create`
unfoldable pub create_code : Text → Result ServiceError Text
create_code value =
    let normalized = trim value in
    reject_if (not (length normalized == 6) || not (all_code_units normalized))
      (bad_request "INVALID_ECONOMIC_ACTIVITY_CODE")
    >> ok normalized

pub record FiscalAddress : Type 0 where
  pub province : Text
  pub canton : Text
  pub district : Text
  pub barrio : Option Text
  pub otras_senas : Text

-- `/^[1-9]$/`
abbrev pub is_province : Text → Bool
is_province (c ∷ []) = leb b'1' c && leb c b'9'
is_province _ = false

-- `/^(0[1-9]|[1-9][0-9])$/`
abbrev pub is_two_digits : Text → Bool
is_two_digits (c ∷ d ∷ []) = is_digit c && is_digit d && not (c == b'0' && d == b'0')
is_two_digits _ = false

abbrev pub trimmed : Option Text → Option Text
trimmed none = none
trimmed (some t) = some (trim t)

abbrev pub has_length : ℕ → ℕ → Text → Bool
has_length least most t = leb least (length t) && leb (length t) most

abbrev pub optional : (Text → Bool) → Option Text → Bool
optional test none = true
optional test (some t) = test t

-- `FiscalAddress.create`; the first test that fails gives the error.
unfoldable pub create_address : FiscalAddress → Result ServiceError FiscalAddress
create_address input =
    let address : FiscalAddress = record {
      province = trim input.province;
      canton = trim input.canton;
      district = trim input.district;
      barrio = trimmed input.barrio;
      otras_senas = trim input.otras_senas;
    } in
    reject_if (is_empty address.province) (bad_request "INVALID_FISCAL_ADDRESS_PROVINCE")
    >> (reject_if (is_empty address.canton) (bad_request "INVALID_FISCAL_ADDRESS_CANTON")
        >> (reject_if (is_empty address.district) (bad_request "INVALID_FISCAL_ADDRESS_DISTRICT")
            >> (reject_if (is_empty address.otras_senas)
                  (bad_request "INVALID_FISCAL_ADDRESS_OTRAS_SENAS")
                >> (reject_if (not (is_province address.province))
                      (bad_request "INVALID_FISCAL_ADDRESS_PROVINCE")
                    >> (reject_if (not (is_two_digits address.canton))
                          (bad_request "INVALID_FISCAL_ADDRESS_CANTON")
                        >> (reject_if (not (is_two_digits address.district))
                              (bad_request "INVALID_FISCAL_ADDRESS_DISTRICT")
                            >> (reject_if (not (optional (has_length 5 50) address.barrio))
                                  (bad_request "INVALID_FISCAL_ADDRESS_BARRIO")
                                >> (reject_if (not (has_length 5 250 address.otras_senas))
                                      (bad_request "INVALID_FISCAL_ADDRESS_OTRAS_SENAS")
                                    >> ok address))))))))

pub record FiscalContact : Type 0 where
  pub email : Text
  pub phone_country_code : Option Text
  pub phone_number : Option Text

abbrev pub is_given : Option Text → Bool
is_given none = false
is_given (some t) = not (is_empty t)

abbrev pub is_number : ℕ → ℕ → Text → Bool
is_number least most t = has_length least most t && all_digits t

-- A value that is given passes its test.
abbrev pub given_passes : (Text → Bool) → Option Text → Bool
given_passes test o = not (is_given o) || optional test o

unfoldable pub create_contact : (Text → Bool) → FiscalContact → Result ServiceError FiscalContact
create_contact is_email input =
    let contact : FiscalContact = record {
      email = trim input.email;
      phone_country_code = trimmed input.phone_country_code;
      phone_number = trimmed input.phone_number;
    } in
    let has_code = is_given contact.phone_country_code in
    let has_number = is_given contact.phone_number in
    reject_if (not (is_email contact.email)) (bad_request "INVALID_FISCAL_CONTACT_EMAIL")
    >> (reject_if (ltb 160 (length contact.email)) (bad_request "INVALID_FISCAL_CONTACT_EMAIL")
        >> (reject_if ((has_code && not has_number) || (not has_code && has_number))
              (bad_request "INVALID_FISCAL_CONTACT_PHONE")
            >> (reject_if (not (given_passes (is_number 1 3) contact.phone_country_code))
                  (bad_request "INVALID_FISCAL_CONTACT_PHONE")
                >> (reject_if (not (given_passes (is_number 3 20) contact.phone_number))
                      (bad_request "INVALID_FISCAL_CONTACT_PHONE")
                    >> ok contact))))

pub record EconomicActivity : Type 0 where
  pub id : Text
  pub code : Text
  pub hacienda_status : Text
  pub billing_enabled : Bool

pub record FiscalProfile : Type 0 where
  pub economic_activity_code : Text
  pub proveedor_sistemas : Option Text
  pub address : FiscalAddress
  pub contact : FiscalContact
  pub default_economic_activity_id : Option Text

pub record CompanyTables : Type 0 where
  -- The company is active and of the tenant.
  pub is_found : Bool
  pub activities : List EconomicActivity
  pub profile : Option FiscalProfile

pub record UpsertFiscalProfile : Type 0 where
  pub role : Text
  pub economic_activity_code : Text
  pub proveedor_sistemas : Option Text
  pub address : FiscalAddress
  pub contact : FiscalContact

abbrev pub may_upsert : Text → Bool
may_upsert role = eq_text role (codes "TENANT_ADMIN") || eq_text role (codes "M2M_FISCAL_PROFILE")

-- The upsert; in an update a field that is `undefined` is left as it is, and so is the default.
abbrev pub upserted :
    Text → Option Text → FiscalAddress → FiscalContact → Option FiscalProfile → FiscalProfile
upserted code proveedor address contact none = record {
  economic_activity_code = code;
  proveedor_sistemas = proveedor;
  address = address;
  contact = contact;
  default_economic_activity_id = none;
}
upserted code proveedor address contact (some p) = record {
  economic_activity_code = code;
  proveedor_sistemas = or_option proveedor p.proveedor_sistemas;
  address = record address { barrio = or_option address.barrio p.address.barrio };
  contact = record contact {
    phone_country_code = or_option contact.phone_country_code p.contact.phone_country_code;
    phone_number = or_option contact.phone_number p.contact.phone_number;
  };
  default_economic_activity_id = p.default_economic_activity_id;
}

unfoldable pub upsert_fiscal_profile :
    (Text → Bool) → UpsertFiscalProfile → CompanyTables → Result ServiceError CompanyTables
upsert_fiscal_profile is_email command t =
    reject_if (not (may_upsert command.role)) (forbidden "ADMIN_ROLE_REQUIRED")
    >> (reject_if (not t.is_found) (not_found "COMPANY_NOT_FOUND")
        >> (create_code command.economic_activity_code >>= λ code.
            create_address command.address >>= λ address.
            create_contact is_email command.contact >>= λ contact.
            (let proveedor = trimmed command.proveedor_sistemas in
              reject_if (not (optional (has_length 0 20) proveedor))
                (bad_request "INVALID_PROVEEDOR_SISTEMAS")
              >> ok (record t {
                profile = some (upserted code proveedor address contact t.profile);
              }))))

abbrev pub with_code : Text → EconomicActivity → Bool
with_code code a = eq_text a.code code

abbrev pub with_id : Text → EconomicActivity → Bool
with_id id a = eq_text a.id id

abbrev pub is_valid_default : EconomicActivity → Bool
is_valid_default a = eq_text a.hacienda_status (codes "A") && a.billing_enabled

abbrev pub require {ℓ} : {A : Type ℓ} → Option A → ServiceError → Result ServiceError A
require none e = err e
require (some a) e = ok a

unfoldable pub set_default_activity : Text → CompanyTables → Result ServiceError CompanyTables
set_default_activity code t =
    reject_if (not t.is_found) (not_found "COMPANY_NOT_FOUND")
    >> (require (find (with_code code) t.activities) (not_found "ACTIVITY_NOT_FOUND") >>= λ a.
        (reject_if (not (is_valid_default a)) (thrown "DEFAULT_ACTIVITY_INVALID")
          >> (require t.profile (not_found "FISCAL_PROFILE_NOT_FOUND") >>= λ p. ok (record t {
            profile = some (record p {
              default_economic_activity_id = some a.id;
              economic_activity_code = a.code;
            });
          }))))

unfoldable pub enable_in : Text → Bool → List EconomicActivity → List EconomicActivity
enable_in id enabled [] = []
enable_in id enabled (a ∷ rest) =
    (if eq_text a.id id then record a { billing_enabled = enabled } else a)
    ∷ enable_in id enabled rest

unfoldable pub set_activity_billing_enabled :
    Text → Bool → CompanyTables → Result ServiceError CompanyTables
set_activity_billing_enabled code enabled t =
    reject_if (not t.is_found) (not_found "COMPANY_NOT_FOUND")
    >> (require (find (with_code code) t.activities) (not_found "ACTIVITY_NOT_FOUND") >>= λ a.
        ok (record t { activities = enable_in a.id enabled t.activities }))
