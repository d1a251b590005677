-- ===== src/FiscalDocument/Tests.antt =====
-- Runs of the theorems on the creation of documents at one company.
use billing_api.Common.{
  ◌≡◌, ◌↔◌, refl, true, false, [], ◌∷◌, none, some, Text, codes, pos, is_digits, eq_text, includes,
  all_digits, is_digits_up_to, is_space, trim, trim_start, split, big_int, pad_start, pad_end,
  to_decimal, div_ℤ, ◌*ℤ◌, ◌+ℤ◌, ◌-ℤ◌, find, Result, ok, err, ◌>>=◌, arith,
}
use billing_api.Money
use billing_api.FiscalDocument.Validation
use billing_api.FiscalDocument.Profile
use billing_api.FiscalDocument.Administration
use billing_api.FiscalDocument.Idempotency
use billing_api.FiscalDocument.Key
use billing_api.FiscalDocument.Totals
use billing_api.FiscalDocument.{
  ticket, sandbox, ServiceError, integer, FiscalDocumentLineInput, CreateFiscalDocumentCommand,
}
use billing_api.FiscalDocument.Key.{
  build_consecutive, build_fiscal_key, ConsecutiveInput, FiscalKeyInput, generate_security_code,
}
use billing_api.FiscalDocument.Key.Digits.{
  build_consecutive_injective, build_fiscal_key_consecutive,
}
use billing_api.FiscalDocument.Validation.{
  validate_create_command, validate_line, validate_sale_payment_terms,
}
use billing_api.FiscalDocument.Validation.Terms.{HasTerms, validate_sale_payment_terms_iff}
use billing_api.FiscalDocument.Validation.Accepted.{Sound, validate_create_command-Sound}
use billing_api.FiscalDocument.Totals.{
  Totals, Amounts, calculate_totals, sum_lines, no_amounts, print, calculate_totals-sums,
}
use billing_api.FiscalDocument.Totals.Bounds.{IsCovered, calculate_totals-IsCovered}
use billing_api.FiscalDocument.Store.{
  Company, CompanyFiscalProfile, FiscalIssuancePoint, FiscalDocument, FiscalIdempotencyKey, Store,
  same_environment, same_type, same_key, to_fiscal_document_response,
}
use billing_api.FiscalDocument.Idempotency.{
  is_idempotency_row, new_idempotency_row, reserve_idempotency_key,
}
use billing_api.FiscalDocument.Creation.{
  Fresh, not_injected, not_eligible, key_of, new_document, commit_document, create_document,
  transaction, check_tenancy, settle_reservation, issue, allocate_document, allocate,
}
use billing_api.FiscalDocument.Creation.Outcomes.{reserve_in}
use billing_api.FiscalDocument.Creation.Guarantees.{
  create_document_idempotent, create_document_conflict, create_document-IsNumbered,
  configure_sequence-IsNumbered,
}
use billing_api.FiscalDocument.Administration.{
  ConfigureSequence, configure_sequence, store_sequence, configured,
}
use billing_api.FiscalDocument.Numbering.{IsNumbered}

abbrev line : FiscalDocumentLineInput
line = record {
  line_number = integer (pos 1);
  cabys_code = codes "8399000000000";
  description = codes "Consulta";
  unit_measure = codes "Unid";
  quantity = codes "2";
  unit_price = codes "10.5";
  discount_amount = none;
  discount_code = none;
  discount_nature = none;
  discount_other = none;
  tax_amount = some (codes "2.73");
  tax_code = some (codes "01");
  tax_rate_code = some (codes "08");
  tax_rate = some (codes "13");
}

abbrev command : CreateFiscalDocumentCommand
command = record {
  tenant_id = codes "t";
  company_id = codes "c";
  environment = sandbox;
  document_type = ticket;
  receiver = none;
  currency = codes "CRC";
  exchange_rate = none;
  sale_condition = codes "01";
  credit_term_days = none;
  payment_method = some (codes "01");
  lines = line ∷ [];
  idempotency_key = some (codes "k");
  api_key_id = some (codes "a");
  actor = none;
  fiscal_payload_equivalence = none;
}

abbrev company : Company
company = record {
  id = codes "c";
  tenant_id = codes "t";
  is_active = true;
  legal_name = codes "Acme";
  trade_name = none;
  identification_type = codes "02";
  identification_number = codes "3101123456";
}

abbrev profile : CompanyFiscalProfile
profile = record {
  tenant_id = codes "t";
  company_id = codes "c";
  default_economic_activity_id = some (codes "e");
  proveedor_sistemas = none;
  province = some (codes "1");
  canton = some (codes "01");
  district = some (codes "01");
  barrio = none;
  otras_senas = some (codes "x");
  email = some (codes "a@b.c");
  phone_country_code = none;
  phone_number = none;
}

abbrev point : FiscalIssuancePoint
point = record {
  id = codes "p";
  tenant_id = codes "t";
  company_id = codes "c";
  environment = sandbox;
  branch_code = codes "001";
  terminal_code = codes "00001";
  active = true;
  is_default = true;
}

abbrev store : Store
store = record {
  companies = company ∷ [];
  api_key_companies = record { api_key_id = codes "a"; company_id = codes "c" } ∷ [];
  profiles = profile ∷ [];
  activities =
      record {
        id = codes "e";
        company_id = codes "c";
        code = codes "620100";
        hacienda_status = codes "A";
        billing_enabled = true;
      }
      ∷ [];
  connections =
      record {
        id = codes "h";
        tenant_id = codes "t";
        company_id = codes "c";
        environment = sandbox;
        is_connected = true;
        secret_reference = codes "s";
      }
      ∷ [];
  points = point ∷ [];
  sequences = [];
  idempotency_keys = [];
  documents = [];
  audit = [];
}

abbrev fresh : Fresh
fresh = record {
  idempotency_id = codes "i1";
  sequence_id = codes "s1";
  document_id = codes "d1";
  issue_date = record { date = 5; month = 6; full_year = 2026 };
  random = 42;
  eligibility = not_injected;
}

abbrev again : Fresh
again = record fresh {
  idempotency_id = codes "i2";
  document_id = codes "d2";
  eligibility = not_eligible;
}

abbrev same_text : Text → Text
same_text t = t

abbrev payload_hash : CreateFiscalDocumentCommand → Result ServiceError Text
payload_hash c = ok (codes "0")

abbrev hash_request : CreateFiscalDocumentCommand → Text
hash_request c = c.sale_condition

abbrev consecutive : Text
consecutive = codes "00100001040000000001"

abbrev clave : Text
clave = codes "50605072600310112345600100001040000000001100000042"

abbrev totals : Totals
totals = record {
  gross_amount = codes "21.00000";
  discount_amount = codes "0.00000";
  tax_amount = codes "2.73000";
  total_amount = codes "23.73000";
}

abbrev document : FiscalDocument
document =
    new_document command fresh company profile (codes "620100") point 1 consecutive clave totals
      (hash_request command)

abbrev after : Store
after =
    commit_document command fresh
      (record {
        id = codes "s1";
        key = key_of command point;
        next_value = 2;
        last_assigned = some 1;
      }
        ∷ [])
      document (reserve_in command fresh (hash_request command) store)

validated : validate_create_command same_text payload_hash command ≡ ok tt
unfolding validate_create_command validate_sale_payment_terms validate_line includes eq_text
    is_digits all_digits is_digits_up_to is_space trim trim_start split big_int pad_start pad_end
    to_decimal div_ℤ ◌*ℤ◌ ◌+ℤ◌ ◌-ℤ◌ Validation.check_cash_terms Validation.validate_receiver
    Validation.validate_fiscal_payload_equivalence Validation.validate_lines
    Validation.is_canonical_hacienda_unit Validation.amount Validation.check_tax
    Validation.check_tax_metadata Validation.validate_line_discount Validation.settle_discount
    Money.is_decimal Money.remove_minus Money.starts_with_minus Money.from Money.is_negative
    Money.is_zero Money.to_text
validated = refl

created :
    create_document same_text payload_hash hash_request command fresh store store
    ≡ (ok (to_fiscal_document_response document), after)
unfolding validate_create_command validate_sale_payment_terms validate_line includes eq_text
    is_digits all_digits is_digits_up_to is_space trim trim_start split big_int pad_start pad_end
    to_decimal div_ℤ ◌*ℤ◌ ◌+ℤ◌ ◌-ℤ◌ Validation.check_cash_terms Validation.validate_receiver
    Validation.validate_fiscal_payload_equivalence Validation.validate_lines
    Validation.is_canonical_hacienda_unit Validation.amount Validation.check_tax
    Validation.check_tax_metadata Validation.validate_line_discount Validation.settle_discount
    Money.is_decimal Money.remove_minus Money.starts_with_minus Money.from Money.is_negative
    Money.is_zero Money.to_text create_document transaction check_tenancy settle_reservation issue
    allocate_document allocate Profile.get_ready_company_fiscal_profile
    Profile.resolve_issuer_economic_activity reserve_idempotency_key
    Idempotency.insert_idempotency_key same_environment same_type same_key build_consecutive
    build_fiscal_key generate_security_code Key.normalize_issuer_identification_for_clave
    calculate_totals Totals.reduce_lines Totals.add_line Totals.line_amounts Totals.add_to
    Money.multiply Money.add Money.subtract
created = refl

create_document_idempotent_example :
    create_document same_text payload_hash hash_request command again after after
    ≡ (ok (to_fiscal_document_response document), after)
create_document_idempotent_example =
    create_document_idempotent same_text payload_hash hash_request command fresh again store
      (to_fiscal_document_response document) after created

-- The row of a request of another hash.
abbrev other_row : FiscalIdempotencyKey
other_row = new_idempotency_row command (codes "i0") (codes "other")

abbrev taken : Store
taken = record store { idempotency_keys = other_row ∷ [] }

find_other : find (is_idempotency_row command) taken.idempotency_keys ≡ some other_row
unfolding eq_text
find_other = refl

other_hash : eq_text other_row.request_hash (hash_request command) ≡ false
unfolding eq_text
other_hash = refl

create_document_conflict_example :
    (e : ServiceError) × (create_document same_text payload_hash hash_request command fresh taken
        taken
      ≡ (err e, taken))
create_document_conflict_example =
    create_document_conflict same_text payload_hash hash_request command fresh taken taken other_row
      find_other other_hash

store-IsNumbered : IsNumbered store
store-IsNumbered = record { assigned = tt; distinct = tt }

create_document-IsNumbered_example :
    IsNumbered (create_document same_text payload_hash hash_request command fresh store store).1
create_document-IsNumbered_example =
    create_document-IsNumbered same_text payload_hash hash_request command fresh store store
      store-IsNumbered

abbrev start_at_50 : ConfigureSequence
start_at_50 = record {
  tenant_id = codes "t";
  company_id = codes "c";
  environment = sandbox;
  document_type = ticket;
  next_value = pos 50;
  actor = codes "TENANT_ADMIN";
}

configure_50 :
    configure_sequence start_at_50 (codes "s9") store store
    ≡ ok (store_sequence (codes "s9") store (configured start_at_50 point, 50))
unfolding configure_sequence Administration.check_sequence Administration.assert_tenant_admin
    Administration.find_tenant_company Administration.in_range Administration.is_started eq_text
    same_environment
configure_50 = refl

configure_sequence-IsNumbered_example :
    IsNumbered (store_sequence (codes "s9") store (configured start_at_50 point, 50))
configure_sequence-IsNumbered_example =
    configure_sequence-IsNumbered start_at_50 (codes "s9") store
      (store_sequence (codes "s9") store (configured start_at_50 point, 50)) store-IsNumbered
      configure_50

calculate_totals-IsCovered_example :
    (a : Amounts) × (calculate_totals command.lines ≡ ok (print a)) × IsCovered a
calculate_totals-IsCovered_example =
    calculate_totals-IsCovered same_text payload_hash command validated

calculate_totals-sums_example :
    calculate_totals command.lines ≡ (sum_lines command.lines no_amounts >>= λ b. ok (print b))
calculate_totals-sums_example = calculate_totals-sums command.lines

validate_create_command-Sound_example : Sound command
validate_create_command-Sound_example =
    validate_create_command-Sound same_text payload_hash command validated

line_validated : validate_line line ≡ ok tt
unfolding validate_line includes eq_text is_digits all_digits split big_int pad_start pad_end
    to_decimal Validation.is_canonical_hacienda_unit Validation.amount Validation.check_tax
    Validation.check_tax_metadata Validation.validate_line_discount Validation.settle_discount
    Money.is_decimal Money.remove_minus Money.starts_with_minus Money.from Money.is_negative
    Money.is_zero Money.to_text
line_validated = refl

validate_sale_payment_terms_iff_example :
    (validate_sale_payment_terms command ≡ ok tt) ↔ HasTerms command
validate_sale_payment_terms_iff_example = validate_sale_payment_terms_iff command

abbrev consecutive_input : ConsecutiveInput
consecutive_input = record {
  branch_code = codes "001";
  terminal_code = codes "00001";
  document_type = ticket;
  sequence_value = 1;
}

consecutive_built : build_consecutive consecutive_input ≡ ok consecutive
unfolding build_consecutive is_digits all_digits pad_start to_decimal
consecutive_built = refl

build_consecutive_injective_example : consecutive_input ≡ consecutive_input
build_consecutive_injective_example =
    build_consecutive_injective consecutive_input consecutive_input consecutive consecutive_built
      consecutive_built

abbrev key_input : FiscalKeyInput
key_input = record {
  issued_at = fresh.issue_date;
  issuer_identification_number = codes "3101123456";
  consecutive = consecutive;
  security_code = codes "00000042";
  situation = none;
}

key_built : build_fiscal_key key_input ≡ ok clave
unfolding build_fiscal_key Key.normalize_issuer_identification_for_clave is_digits is_digits_up_to
    all_digits pad_start to_decimal trim trim_start is_space
key_built = refl

build_fiscal_key_consecutive_example :
    (consecutive ≡ consecutive) × (codes "00000042" ≡ codes "00000042")
build_fiscal_key_consecutive_example =
    build_fiscal_key_consecutive key_input key_input clave (omega arith, omega arith, omega arith)
      (omega arith, omega arith, omega arith) key_built key_built
