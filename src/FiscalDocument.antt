-- ===== src/FiscalDocument.antt =====
-- The creation of fiscal documents: src/modules/fiscal-documents/domain and
-- application/fiscal-document.service.ts. This file has the types that its parts share.
pub mod Key
pub mod Validation
pub mod Totals
pub mod Store
pub mod Profile
pub mod Idempotency
pub mod Creation
pub mod Administration
pub mod Numbering
mod Tests
use billing_api.Common.{
  suc, Bool, true, false, List, [], ◌∷◌, String, Option, none, some, Text, ℤ, pos, negsuc, leb,
}

pub data FiscalDocumentType : Type 0 where
  invoice ticket : FiscalDocumentType

pub data HaciendaEnvironment : Type 0 where
  production sandbox : HaciendaEnvironment

-- What a call may throw: an HTTP exception with its code, or a plain `Error`.
pub data ServiceError : Type 0 where
  bad_request not_found conflict forbidden thrown : String → ServiceError

-- A `number` of a request: an integer, a fraction between `z` and `z + 1`, or NaN.
pub data Number : Type 0 where
  integer fraction : ℤ → Number
  nan : Number

-- `n < 1`
abbrev pub lt_one : Number → Bool
lt_one (integer (pos n)) = leb n 0
lt_one (integer (negsuc n)) = true
lt_one (fraction (pos n)) = leb (suc n) 1
lt_one (fraction (negsuc n)) = true
lt_one nan = false

-- A text that is neither `undefined` nor empty, as a condition.
abbrev pub is_present : Option Text → Bool
is_present none = false
is_present (some s) = elim s [ [] ↦ false | _ ∷ _ ↦ true ]

pub record FiscalDocumentLineInput : Type 0 where
  pub line_number : Number
  pub cabys_code : Text
  pub description : Text
  pub unit_measure : Text
  pub quantity : Text
  pub unit_price : Text
  pub discount_amount : Option Text
  pub discount_code : Option Text
  pub discount_nature : Option Text
  pub discount_other : Option Text
  pub tax_amount : Option Text
  pub tax_code : Option Text
  pub tax_rate_code : Option Text
  pub tax_rate : Option Text

-- The fields of the receiver that are read; `none` is a value that is no string.
pub record Receiver : Type 0 where
  pub name : Option Text
  pub identification_type : Option Text
  pub identification_number : Option Text
  pub email : Option Text

pub record PayloadEvidence : Type 0 where
  pub contract_version : Option Text
  pub hash : Option Text

pub record CreateFiscalDocumentCommand : Type 0 where
  pub tenant_id : Text
  pub company_id : Text
  pub environment : HaciendaEnvironment
  pub document_type : FiscalDocumentType
  pub receiver : Option Receiver
  pub currency : Text
  pub exchange_rate : Option Text
  pub sale_condition : Text
  pub credit_term_days : Option Number
  pub payment_method : Option Text
  pub lines : List FiscalDocumentLineInput
  pub idempotency_key : Option Text
  pub api_key_id : Option Text
  pub actor : Option Text
  pub fiscal_payload_equivalence : Option PayloadEvidence
