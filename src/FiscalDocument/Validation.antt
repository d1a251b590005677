-- ===== src/FiscalDocument/Validation.antt =====
-- application/fiscal-document.service.ts, validateCreateCommand and what it calls, and
-- domain/fiscal-catalogs.ts. Every check is a `reject_if` in the order of the source.
--
-- Parameters: `upper` is Unicode's upper case; `payload_hash` is the SHA-256 of the canonical
-- payload of a command, or the `Error` that its normalisation throws.
pub mod Terms
pub mod Accepted
use billing_api.Common.{
  ℕ, ◌+◌, ◌≡◌, ap, Bool, true, false, not, ◌&&◌, ◌||◌, List, [], ◌∷◌, Option, none, some, Text,
  codes, ℤ, pos, eq_text, includes, trim, length, ltb, leb, ◌==◌, if◌then◌else◌, is_digits,
  is_digits_up_to, Result, ok, err, ◌>>=◌, ◌>>◌, reject_if, or_else, is_digit,
}
use billing_api.Money.{ScaledDecimal, from, multiply, subtract, is_negative, is_zero, to_text}
use billing_api.FiscalDocument.{
  FiscalDocumentType, invoice, ServiceError, bad_request, thrown, Number, integer, lt_one,
  is_present, FiscalDocumentLineInput, Receiver, PayloadEvidence, CreateFiscalDocumentCommand,
}
use billing_api.Money.RoundTrip.{from-to_text}
use billing_api.FiscalDocument.Key.{map_identification_type_to_xml_code}

abbrev pub Checked : Type 0
Checked = Result ServiceError (Unit {0})

abbrev pub allowed_currency_codes : List Text
allowed_currency_codes = codes "CRC" ∷ codes "USD" ∷ []

abbrev pub allowed_sale_conditions : List Text
allowed_sale_conditions =
    codes "01"
    ∷ codes "02"
    ∷ codes "03"
    ∷ codes "04"
    ∷ codes "05"
    ∷ codes "06"
    ∷ codes "07"
    ∷ codes "08"
    ∷ codes "09"
    ∷ codes "10"
    ∷ codes "11"
    ∷ codes "12"
    ∷ codes "99"
    ∷ []

abbrev pub allowed_payment_methods : List Text
allowed_payment_methods =
    codes "01" ∷ codes "02" ∷ codes "03" ∷ codes "04" ∷ codes "05" ∷ codes "99" ∷ []

abbrev pub h4_unit_measures : List Text
h4_unit_measures =
    codes "Unid" ∷ codes "Kg" ∷ codes "G" ∷ codes "L" ∷ codes "mL" ∷ codes "M" ∷ codes "Sp" ∷ []

abbrev pub h4_discount_codes : List Text
h4_discount_codes =
    codes "01"
    ∷ codes "02"
    ∷ codes "03"
    ∷ codes "04"
    ∷ codes "05"
    ∷ codes "06"
    ∷ codes "07"
    ∷ codes "08"
    ∷ codes "09"
    ∷ codes "99"
    ∷ []

unfoldable pub is_canonical_hacienda_unit : Text → Bool
is_canonical_hacienda_unit value = includes h4_unit_measures value

unfoldable pub is_hacienda_discount_code : Text → Bool
is_hacienda_discount_code value = includes h4_discount_codes value

-- `ScaledDecimal.from`, which throws a plain `Error`.
abbrev or_throw : Option ScaledDecimal → Result ServiceError ScaledDecimal
or_throw none = err (thrown "Decimal values must contain at most 5 decimal places.")
or_throw (some a) = ok a

unfoldable pub amount : Text → Result ServiceError ScaledDecimal
amount value = or_throw (from value)

pub amount-to_text : (a : ℤ) → amount (to_text a) ≡ ok a
unfolding amount
amount-to_text a = ap or_throw (from-to_text a)

-- `optional ?? '0'`
abbrev pub or_zero : Option Text → Text
or_zero t = or_else t (codes "0")

-- The test of credit days: `integer` in the range, a `number` in any case.
abbrev pub is_credit_term : Option Number → Bool
is_credit_term (some (integer (pos n))) = leb 1 n && leb n 99999
is_credit_term _ = false

abbrev pub is_defined : Option Number → Bool
is_defined none = false
is_defined (some _) = true

-- An optional text that is compared with an allowed value.
abbrev pub text_of : Option Text → Text
text_of t = or_else t []

unfoldable pub check_credit_terms : CreateFiscalDocumentCommand → Checked
check_credit_terms command = do
  reject_if (not (is_credit_term command.credit_term_days))
      (bad_request "FISCAL_CREDIT_TERM_REQUIRED")
  reject_if (is_present command.payment_method) (bad_request "CREDIT_PAYMENT_METHOD_NOT_ALLOWED")

unfoldable pub check_cash_terms : CreateFiscalDocumentCommand → Checked
check_cash_terms command = do
  reject_if (is_defined command.credit_term_days) (bad_request "FISCAL_CREDIT_TERM_NOT_ALLOWED")
  reject_if (not (is_present command.payment_method)) (bad_request "PAYMENT_METHOD_REQUIRED")
  reject_if (not (includes allowed_payment_methods (text_of command.payment_method)))
      (bad_request "INVALID_PAYMENT_METHOD")
  reject_if (eq_text (text_of command.payment_method) (codes "99"))
      (bad_request "UNSUPPORTED_FISCAL_PAYMENT_METHOD")

unfoldable pub validate_sale_payment_terms : CreateFiscalDocumentCommand → Checked
validate_sale_payment_terms command =
    if eq_text command.sale_condition (codes "02")
    then check_credit_terms command
    else check_cash_terms command

-- The branches of `validateLineDiscount` once the amount is not zero.
unfoldable pub check_discount_other : FiscalDocumentLineInput → Checked
check_discount_other line =
    if eq_text (text_of line.discount_code) (codes "99")
    then reject_if
        (ltb (length (trim (text_of line.discount_other))) 5
          || ltb 100 (length (trim (text_of line.discount_other))))
        (bad_request "FISCAL_DISCOUNT_OTHER_REQUIRED")
    else reject_if (is_present line.discount_other)
        (bad_request "FISCAL_DISCOUNT_OTHER_NOT_ALLOWED")

unfoldable pub check_discount_metadata : FiscalDocumentLineInput → Checked
check_discount_metadata line = do
  reject_if (not (is_present line.discount_code) || not (is_present line.discount_nature))
      (bad_request "FISCAL_DISCOUNT_METADATA_REQUIRED")
  reject_if (not (is_hacienda_discount_code (text_of line.discount_code)))
      (bad_request "INVALID_FISCAL_DISCOUNT_CODE")
  let nature = trim (text_of line.discount_nature)
  reject_if (ltb (length nature) 3 || ltb 80 (length nature))
      (bad_request "INVALID_FISCAL_DISCOUNT_NATURE")
  check_discount_other line

unfoldable pub check_discount_amount : FiscalDocumentLineInput → ScaledDecimal → Checked
check_discount_amount line discount = do
  quantity ← amount line.quantity
  unit_price ← amount line.unit_price
  reject_if (is_negative discount || is_negative (subtract (multiply quantity unit_price) discount))
      (bad_request "INVALID_FISCAL_DISCOUNT_AMOUNT")
  check_discount_metadata line

unfoldable pub settle_discount : FiscalDocumentLineInput → ScaledDecimal → Checked
settle_discount line discount =
    if is_zero discount
    then reject_if
        (is_present line.discount_code
          || is_present line.discount_nature
          || is_present line.discount_other)
        (bad_request "FISCAL_DISCOUNT_METADATA_WITHOUT_AMOUNT")
    else check_discount_amount line discount

unfoldable pub validate_line_discount : FiscalDocumentLineInput → Checked
validate_line_discount line = amount (or_zero line.discount_amount) >>= settle_discount line

-- The tax metadata of a line.
unfoldable pub check_tax_metadata : FiscalDocumentLineInput → Checked
check_tax_metadata line = do
  reject_if
      (not (is_present line.tax_code)
        || not (is_present line.tax_rate_code)
        || not (is_present line.tax_rate))
      (bad_request "FISCAL_TAX_METADATA_REQUIRED")
  reject_if
      (not (is_digits 2 (text_of line.tax_code)) || not (is_digits 2 (text_of line.tax_rate_code)))
      (bad_request "INVALID_FISCAL_TAX_METADATA")

unfoldable pub check_tax : FiscalDocumentLineInput → ScaledDecimal → Checked
check_tax line tax =
    if eq_text (to_text tax) (codes "0.00000") then ok tt else check_tax_metadata line

-- One round of the loop over the lines. `||` reads the unit price only if the quantity passes.
unfoldable pub validate_line : FiscalDocumentLineInput → Checked
validate_line line = do
  reject_if (not (is_digits 13 line.cabys_code)) (bad_request "INVALID_CABYS_CODE")
  reject_if (lt_one line.line_number) (bad_request "INVALID_LINE_NUMBER")
  reject_if (not (is_canonical_hacienda_unit line.unit_measure))
      (bad_request "UNSUPPORTED_FISCAL_UNIT_MEASURE")
  quantity ← amount line.quantity
  reject_if (is_negative quantity) (bad_request "INVALID_LINE_AMOUNT")
  unit_price ← amount line.unit_price
  reject_if (is_negative unit_price) (bad_request "INVALID_LINE_AMOUNT")
  tax ← amount (or_zero line.tax_amount)
  check_tax line tax
  validate_line_discount line

unfoldable pub validate_lines : List FiscalDocumentLineInput → Checked
validate_lines [] = ok tt
validate_lines (line ∷ lines) = validate_line line >> validate_lines lines

-- `requiredReceiverText`
abbrev pub required_receiver_text : Option Text → Text
required_receiver_text none = []
required_receiver_text (some s) = trim s

abbrev pub is_invoice : FiscalDocumentType → Bool
is_invoice invoice = true
is_invoice _ = false

abbrev pub is_blank : Text → Bool
is_blank t = length t == 0

module _ (upper : Text → Text) where
  check_receiver : FiscalDocumentType → Receiver → Checked
  check_receiver document_type receiver = do
    let name = required_receiver_text receiver.name
    let type = required_receiver_text receiver.identification_type
    let number = required_receiver_text receiver.identification_number
    reject_if (is_blank name || is_blank type || is_blank number)
        (bad_request "RECEIVER_IDENTIFICATION_REQUIRED")
    elim (map_identification_type_to_xml_code upper type) [
      | ok _ ↦ ok tt
      | err _ ↦ err (bad_request "INVALID_RECEIVER_IDENTIFICATION_TYPE")
    ]
    reject_if (not (is_digits_up_to 12 number))
        (bad_request "INVALID_RECEIVER_IDENTIFICATION_NUMBER")
    reject_if (is_invoice document_type && is_blank (required_receiver_text receiver.email))
        (bad_request "INVOICE_RECEIVER_EMAIL_REQUIRED")

  unfoldable pub validate_receiver : CreateFiscalDocumentCommand → Checked
  unfolding check_receiver
  validate_receiver command = elim command.receiver [
    | none ↦ reject_if (is_invoice command.document_type) (bad_request "INVOICE_RECEIVER_REQUIRED")
    | some receiver ↦ check_receiver command.document_type receiver
  ]

-- `/^[a-fA-F0-9]{64}$/` and `toLowerCase` of such a text.
abbrev is_hex : ℕ → Bool
is_hex c = is_digit c || (leb b'a' c && leb c b'f') || (leb b'A' c && leb c b'F')

unfoldable pub all_hex : Text → Bool
all_hex [] = true
all_hex (c ∷ s) = is_hex c && all_hex s

unfoldable pub lower_hex : Text → Text
lower_hex [] = []
lower_hex (c ∷ s) = (if leb b'A' c && leb c b'F' then c + 32 else c) ∷ lower_hex s

module _ (payload_hash : CreateFiscalDocumentCommand → Result ServiceError Text) where
  check_evidence : CreateFiscalDocumentCommand → PayloadEvidence → Checked
  check_evidence command evidence = do
    reject_if (not (is_present evidence.contract_version) || not (is_present evidence.hash))
        (bad_request "FISCAL_PAYLOAD_EQUIVALENCE_HEADERS_REQUIRED")
    reject_if
        (not (eq_text (text_of evidence.contract_version) (codes "fiscal-payload-equivalence.v1")))
        (bad_request "FISCAL_PAYLOAD_CONTRACT_VERSION_UNSUPPORTED")
    let hash = text_of evidence.hash
    reject_if (not (length hash == 64 && all_hex hash)) (bad_request "FISCAL_PAYLOAD_HASH_INVALID")
    actual ← payload_hash command
    reject_if (not (eq_text actual (lower_hex hash))) (bad_request "FISCAL_PAYLOAD_HASH_INVALID")

  unfoldable pub validate_fiscal_payload_equivalence : CreateFiscalDocumentCommand → Checked
  unfolding check_evidence
  validate_fiscal_payload_equivalence command = elim command.fiscal_payload_equivalence [
    | none ↦ ok tt
    | some evidence ↦ check_evidence command evidence
  ]

abbrev pub unsupported_sale_conditions : List Text
unsupported_sale_conditions = codes "09" ∷ codes "11" ∷ codes "99" ∷ []

abbrev pub is_empty_list : List FiscalDocumentLineInput → Bool
is_empty_list [] = true
is_empty_list (_ ∷ _) = false

unfoldable pub validate_create_command :
    (Text → Text)
    → (CreateFiscalDocumentCommand → Result ServiceError Text)
    → CreateFiscalDocumentCommand
    → Checked
validate_create_command upper payload_hash command = do
  reject_if (not (is_present command.api_key_id)) (bad_request "API_KEY_CONTEXT_REQUIRED")
  reject_if (not (is_present command.idempotency_key)) (bad_request "IDEMPOTENCY_KEY_REQUIRED")
  reject_if (not (includes allowed_currency_codes command.currency))
      (bad_request "INVALID_CURRENCY")
  reject_if (not (includes allowed_sale_conditions command.sale_condition))
      (bad_request "INVALID_SALE_CONDITION")
  reject_if (includes unsupported_sale_conditions command.sale_condition)
      (bad_request "UNSUPPORTED_FISCAL_SALE_CONDITION")
  validate_sale_payment_terms command
  reject_if (not (eq_text command.currency (codes "CRC")) && not (is_present command.exchange_rate))
      (bad_request "EXCHANGE_RATE_REQUIRED")
  validate_receiver upper command
  validate_fiscal_payload_equivalence payload_hash command
  reject_if (is_empty_list command.lines) (bad_request "FISCAL_DOCUMENT_LINES_REQUIRED")
  validate_lines command.lines
