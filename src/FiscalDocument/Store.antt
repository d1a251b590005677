-- ===== src/FiscalDocument/Store.antt =====
-- The tables that application/fiscal-document.service.ts reads and writes, with the columns that
-- it uses, as lists of rows, each in the order of its ids. `findFirst` and `findUnique` are `find`.
-- The dates of the rows, and the class and metadata of audit events, are left out.
use billing_api.Common.{
  Result, ok, err, ℕ, Bool, true, false, ◌&&◌, List, Option, none, some, Text, eq_text, to_decimal,
}
use billing_api.FiscalDocument.{
  ServiceError, FiscalDocumentType, invoice, ticket, HaciendaEnvironment, production, sandbox,
  Receiver, Number, FiscalDocumentLineInput,
}
use billing_api.FiscalDocument.Key.{LocalDate}
use billing_api.FiscalDocument.Totals.{Totals}

pub record Company : Type 0 where
  pub id : Text
  pub tenant_id : Text
  pub is_active : Bool
  pub legal_name : Text
  pub trade_name : Option Text
  pub identification_type : Text
  pub identification_number : Text

pub record ApiKeyCompany : Type 0 where
  pub api_key_id : Text
  pub company_id : Text

pub record CompanyFiscalProfile : Type 0 where
  pub tenant_id : Text
  pub company_id : Text
  pub default_economic_activity_id : Option Text
  pub proveedor_sistemas : Option Text
  pub province : Option Text
  pub canton : Option Text
  pub district : Option Text
  pub barrio : Option Text
  pub otras_senas : Option Text
  pub email : Option Text
  pub phone_country_code : Option Text
  pub phone_number : Option Text

pub record CompanyEconomicActivity : Type 0 where
  pub id : Text
  pub company_id : Text
  pub code : Text
  pub hacienda_status : Text
  pub billing_enabled : Bool

pub record HaciendaConnection : Type 0 where
  pub id : Text
  pub tenant_id : Text
  pub company_id : Text
  pub environment : HaciendaEnvironment
  pub is_connected : Bool
  pub secret_reference : Text

pub record FiscalIssuancePoint : Type 0 where
  pub id : Text
  pub tenant_id : Text
  pub company_id : Text
  pub environment : HaciendaEnvironment
  pub branch_code : Text
  pub terminal_code : Text
  pub active : Bool
  pub is_default : Bool

-- The unique key of a sequence.
pub record SequenceKey : Type 0 where
  pub tenant_id : Text
  pub company_id : Text
  pub environment : HaciendaEnvironment
  pub branch_code : Text
  pub terminal_code : Text
  pub document_type : FiscalDocumentType

pub record FiscalSequence : Type 0 where
  pub id : Text
  pub key : SequenceKey
  pub next_value : ℕ
  pub last_assigned : Option ℕ

pub record FiscalIdempotencyKey : Type 0 where
  pub id : Text
  pub tenant_id : Text
  pub company_id : Text
  pub key : Text
  pub api_key_id : Text
  pub operation : Text
  pub request_hash : Text
  pub is_completed : Bool
  pub fiscal_document_id : Option Text

pub record IssuerSnapshot : Type 0 where
  pub legal_name : Text
  pub trade_name : Option Text
  pub identification_type : Text
  pub identification_number : Text
  pub codigo_actividad : Text
  pub proveedor_sistemas : Option Text
  pub provincia : Option Text
  pub canton : Option Text
  pub distrito : Option Text
  pub barrio : Option Text
  pub otras_senas : Option Text
  pub email : Option Text
  pub phone_country_code : Option Text
  pub phone_number : Option Text

-- The columns of a document that responses have too. `Big` is how a `bigint` is given: a number
-- in the row, a text in a response.
pub record DocumentFields (Big : Type 0) : Type 0 where
  pub id : Text
  pub key : SequenceKey
  pub status : Text
  pub issuance_point_id : Text
  pub sequence_value : Big
  pub consecutive : Text
  pub clave : Text
  pub situation : Text
  pub issue_date : LocalDate
  pub issuer_snapshot : IssuerSnapshot
  pub receiver_snapshot : Option Receiver
  pub currency : Text
  pub exchange_rate : Option Text
  pub sale_condition : Text
  pub credit_term_days : Option Number
  pub payment_method : Option Text
  pub lines : List FiscalDocumentLineInput
  pub totals : Totals
  pub idempotency_key : Text

pub record FiscalDocument : Type 0 where
  pub fields : DocumentFields ℕ
  pub security_code : Text
  pub request_hash : Text

pub record AuditEvent : Type 0 where
  pub action : Text
  pub tenant_id : Text
  pub company_id : Text
  pub actor : Option Text
  pub resource : Text

pub record Store : Type 0 where
  pub companies : List Company
  pub api_key_companies : List ApiKeyCompany
  pub profiles : List CompanyFiscalProfile
  pub activities : List CompanyEconomicActivity
  pub connections : List HaciendaConnection
  pub points : List FiscalIssuancePoint
  pub sequences : List FiscalSequence
  pub idempotency_keys : List FiscalIdempotencyKey
  pub documents : List FiscalDocument
  pub audit : List AuditEvent

unfoldable pub same_environment : HaciendaEnvironment → HaciendaEnvironment → Bool
same_environment production production = true
same_environment sandbox sandbox = true
same_environment _ _ = false

unfoldable pub same_type : FiscalDocumentType → FiscalDocumentType → Bool
same_type invoice invoice = true
same_type ticket ticket = true
same_type _ _ = false

unfoldable pub same_key : SequenceKey → SequenceKey → Bool
same_key a b =
    eq_text a.tenant_id b.tenant_id
    && eq_text a.company_id b.company_id
    && same_environment a.environment b.environment
    && eq_text a.branch_code b.branch_code
    && eq_text a.terminal_code b.terminal_code
    && same_type a.document_type b.document_type

-- `toFiscalDocumentResponse`
abbrev pub to_fiscal_document_response : FiscalDocument → DocumentFields Text
to_fiscal_document_response d = record {
  id = d.fields.id;
  key = d.fields.key;
  status = d.fields.status;
  issuance_point_id = d.fields.issuance_point_id;
  sequence_value = to_decimal d.fields.sequence_value;
  consecutive = d.fields.consecutive;
  clave = d.fields.clave;
  situation = d.fields.situation;
  issue_date = d.fields.issue_date;
  issuer_snapshot = d.fields.issuer_snapshot;
  receiver_snapshot = d.fields.receiver_snapshot;
  currency = d.fields.currency;
  exchange_rate = d.fields.exchange_rate;
  sale_condition = d.fields.sale_condition;
  credit_term_days = d.fields.credit_term_days;
  payment_method = d.fields.payment_method;
  lines = d.fields.lines;
  totals = d.fields.totals;
  idempotency_key = d.fields.idempotency_key;
}

-- `if (!x) throw e`
abbrev pub require {ℓ} : {A : Type ℓ} → Option A → ServiceError → Result ServiceError A
require none e = err e
require (some a) e = ok a
