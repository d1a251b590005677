-- ===== src/FiscalDocument/Key.antt =====
-- domain/fiscal-key.generator.ts, domain/fiscal-identification.mapper.ts,
-- domain/fiscal-cabys-classifier.ts and domain/fiscal.constants.ts: the consecutive number and the
-- key (`clave`) of a document. An `Error` is `err` with its message. The random security code is an
-- argument below 100000000, and upper case, which is Unicode's, the parameter `upper`.
pub mod Digits
use billing_api.Common.{
  ℕ, ◌+◌, ◌%◌, ◌≤◌, not, ◌||◌, [], ◌∷◌, ◌++◌, String, Text, codes, eq_text, includes, is_digits,
  is_digits_up_to, trim, pad_start, to_decimal, ltb, leb, if◌then◌else◌, Result, ok, err, ◌>>=◌,
  ◌>>◌, reject_if, Option, or_else,
}
use billing_api.FiscalDocument.{FiscalDocumentType, invoice, ticket}

abbrev pub fiscal_country_code : Text
fiscal_country_code = codes "506"

abbrev pub fiscal_normal_situation : Text
fiscal_normal_situation = codes "1"

abbrev pub fiscal_document_code : FiscalDocumentType → Text
fiscal_document_code invoice = codes "01"
fiscal_document_code ticket = codes "04"

-- The table of identification types, with the normalised text where it has no entry.
abbrev xml_identification_code : Text → Text
xml_identification_code t =
    if eq_text t (codes "FISICA")
    then codes "01"
    else if eq_text t (codes "JURIDICA")
    then codes "02"
    else if eq_text t (codes "DIMEX")
    then codes "03"
    else if eq_text t (codes "NITE")
    then codes "04"
    else t

unfoldable pub map_identification_type_to_xml_code : (Text → Text) → Text → Result String Text
unfolding eq_text includes trim
map_identification_type_to_xml_code upper value =
    let code = xml_identification_code (upper (trim value)) in
    if includes (codes "01" ∷ codes "02" ∷ codes "03" ∷ codes "04" ∷ []) code
    then ok code
    else err "FISCAL_IDENTIFICATION_TYPE_UNSUPPORTED"

unfoldable pub normalize_issuer_identification_for_clave : Text → Result String Text
normalize_issuer_identification_for_clave value =
    if is_digits_up_to 12 (trim value)
    then ok (pad_start 12 (trim value))
    else err "FISCAL_IDENTIFICATION_NUMBER_INVALID_FOR_CLAVE"

pub data CabysCategory : Type 0 where
  goods service : CabysCategory

-- `parseInt(code[0], 10)` of a text of digits.
abbrev first_digit : Text → ℕ
first_digit [] = 0
first_digit (c ∷ s) = c

unfoldable pub classify_cabys : Text → Result String CabysCategory
unfolding is_digits
classify_cabys code =
    if is_digits 13 code
    then ok (if leb b'5' (first_digit code) then service else goods)
    else err "INVALID_CABYS_CODE"

pub record ConsecutiveInput : Type 0 where
  pub branch_code : Text
  pub terminal_code : Text
  pub document_type : FiscalDocumentType
  pub sequence_value : ℕ

unfoldable pub build_consecutive : ConsecutiveInput → Result String Text
build_consecutive input = do
  reject_if (not (is_digits 3 input.branch_code)) "branchCode must be 3 digits."
  reject_if (not (is_digits 5 input.terminal_code)) "terminalCode must be 5 digits."
  reject_if (ltb input.sequence_value 1 || ltb 9999999999 input.sequence_value)
      "sequenceValue is outside Hacienda 10-digit range."
  ok (
      input.branch_code
      ++ (input.terminal_code
          ++ (fiscal_document_code input.document_type
              ++ pad_start 10 (to_decimal input.sequence_value))))

-- The local date of a `Date`: `getDate()`, `getMonth()` (from 0) and `getFullYear()`.
pub record LocalDate : Type 0 where
  pub date : ℕ
  pub month : ℕ
  pub full_year : ℕ

-- What `Date` guarantees of them.
abbrev pub IsLocalDate : LocalDate → Type 0
IsLocalDate d = (1 ≤ d.date) × (d.date ≤ 31) × (d.month ≤ 11)

pub record FiscalKeyInput : Type 0 where
  pub issued_at : LocalDate
  pub issuer_identification_number : Text
  pub consecutive : Text
  pub security_code : Text
  pub situation : Option Text

unfoldable pub generate_security_code : ℕ → Text
unfolding to_decimal pad_start
generate_security_code random = pad_start 8 (to_decimal random)

unfoldable pub build_fiscal_key : FiscalKeyInput → Result String Text
build_fiscal_key input = do
  issuer ← normalize_issuer_identification_for_clave input.issuer_identification_number
  let day = pad_start 2 (to_decimal input.issued_at.date)
  let month = pad_start 2 (to_decimal (input.issued_at.month + 1))
  let year = pad_start 2 (to_decimal (input.issued_at.full_year % 100))
  let situation = or_else input.situation fiscal_normal_situation
  reject_if (not (is_digits 20 input.consecutive)) "consecutive must be 20 digits."
  reject_if (not (is_digits 8 input.security_code)) "securityCode must be 8 digits."
  reject_if (not (is_digits 1 situation)) "situation must be 1 digit."
  ok (
      fiscal_country_code
      ++ (day
          ++ (month
              ++ (year ++ (issuer ++ (input.consecutive ++ (situation ++ input.security_code)))))))
