-- ===== src/FiscalDocument/Creation.antt =====
-- application/fiscal-document.service.ts: createDocument. A transaction runs on the tables and, if it throws, leaves them as they were.
-- `seen` is what the lookups before the insertion of the idempotency key saw, `store` the tables
-- from the insertion on: the two differ where another transaction commits in between.
--
-- Parameters: `upper` and `payload_hash` as in Validation; `hash_request` is the SHA-256 of a
-- command without its actor and keys. What the platform gives a call is the record `Fresh`.
pub mod Outcomes
pub mod Guarantees
use billing_api.Common.{
  ℕ, ◌+◌, Bool, true, false, not, ◌&&◌, List, [], ◌∷◌, ◌++◌, String, none, some, Text, codes,
  eq_text, ltb, if◌then◌else◌, find, update_first, Result, ok, err, ◌>>=◌, ◌>>◌, reject_if,
}
use billing_api.FiscalDocument.{
  HaciendaEnvironment, ServiceError, bad_request, not_found, conflict, forbidden, thrown,
  CreateFiscalDocumentCommand,
}
use billing_api.FiscalDocument.Key.{
  LocalDate, generate_security_code, build_consecutive, build_fiscal_key, fiscal_normal_situation,
}
use billing_api.FiscalDocument.Validation.{text_of, validate_create_command}
use billing_api.FiscalDocument.Totals.{Totals, calculate_totals}
use billing_api.FiscalDocument.Store.{
  Company, CompanyFiscalProfile, HaciendaConnection, FiscalIssuancePoint, SequenceKey,
  FiscalSequence, DocumentFields, FiscalDocument, Store, same_environment, same_key,
  to_fiscal_document_response, require,
}
use billing_api.FiscalDocument.Profile.{get_ready_company_fiscal_profile}
use billing_api.FiscalDocument.Idempotency.{
  Reservation, reserved, replayed, reserve_idempotency_key,
}

-- What the issuance eligibility, if it is injected, says of a company that is eligible.
pub record EligibleConnection : Type 0 where
  pub connection_id : Text
  pub secret_reference : Text

pub data Eligibility : Type 0 where
  not_injected : Eligibility
  not_eligible : Eligibility
  eligible : EligibleConnection → Eligibility

pub record Fresh : Type 0 where
  pub idempotency_id : Text
  pub sequence_id : Text
  pub document_id : Text
  pub issue_date : LocalDate
  pub random : ℕ
  pub eligibility : Eligibility

-- An `Error` of the key generator.
abbrev pub or_throws : Result String Text → Result ServiceError Text
or_throws (ok t) = ok t
or_throws (err m) = err (thrown m)

-- `INSERT … ON CONFLICT DO UPDATE … RETURNING "last_assigned"`
unfoldable pub allocate : SequenceKey → Text → List FiscalSequence → ℕ × List FiscalSequence
allocate key id [] = (1, record { id = id; key = key; next_value = 2; last_assigned = some 1 } ∷ [])
allocate key id (s ∷ rest) =
    let (n, rest') = allocate key id rest in
    if same_key s.key key
    then (
      s.next_value,
      record s { last_assigned = some s.next_value; next_value = s.next_value + 1 } ∷ rest,
    )
    else (n, s ∷ rest')

-- The default point of a company in an environment.
abbrev pub is_default_point : Text → Text → HaciendaEnvironment → FiscalIssuancePoint → Bool
is_default_point tenant_id company_id environment p =
    eq_text p.tenant_id tenant_id
    && eq_text p.company_id company_id
    && same_environment p.environment environment
    && p.active
    && p.is_default

-- The connection that the allocation needs; it has to be the one that was found eligible.
abbrev is_chosen : Eligibility → HaciendaConnection → Bool
is_chosen (eligible e) c =
    eq_text c.id e.connection_id && eq_text c.secret_reference e.secret_reference
is_chosen _ c = true

abbrev is_not_eligible : Eligibility → Bool
is_not_eligible not_eligible = true
is_not_eligible _ = false

abbrev is_usable_connection : CreateFiscalDocumentCommand → Eligibility → HaciendaConnection → Bool
is_usable_connection command eligibility c =
    eq_text c.tenant_id command.tenant_id
    && eq_text c.company_id command.company_id
    && same_environment c.environment command.environment
    && c.is_connected
    && is_chosen eligibility c

abbrev pub key_of : CreateFiscalDocumentCommand → FiscalIssuancePoint → SequenceKey
key_of command point = record {
  tenant_id = command.tenant_id;
  company_id = command.company_id;
  environment = command.environment;
  branch_code = point.branch_code;
  terminal_code = point.terminal_code;
  document_type = command.document_type;
}

-- The row of the new document.
abbrev pub new_document :
    CreateFiscalDocumentCommand
    → Fresh
    → Company
    → CompanyFiscalProfile
    → Text
    → FiscalIssuancePoint
    → ℕ
    → Text
    → Text
    → Totals
    → Text
    → FiscalDocument
new_document command fresh company profile activity_code point n consecutive clave totals hash =
    record {
      fields = record {
        id = fresh.document_id;
        key = key_of command point;
        status = codes "READY_FOR_XML";
        issuance_point_id = point.id;
        sequence_value = n;
        consecutive = consecutive;
        clave = clave;
        situation = fiscal_normal_situation;
        issue_date = fresh.issue_date;
        issuer_snapshot = record {
          legal_name = company.legal_name;
          trade_name = company.trade_name;
          identification_type = company.identification_type;
          identification_number = company.identification_number;
          codigo_actividad = activity_code;
          proveedor_sistemas = profile.proveedor_sistemas;
          provincia = profile.province;
          canton = profile.canton;
          distrito = profile.district;
          barrio = profile.barrio;
          otras_senas = profile.otras_senas;
          email = profile.email;
          phone_country_code = profile.phone_country_code;
          phone_number = profile.phone_number;
        };
        receiver_snapshot = command.receiver;
        currency = command.currency;
        exchange_rate = command.exchange_rate;
        sale_condition = command.sale_condition;
        credit_term_days = command.credit_term_days;
        payment_method = command.payment_method;
        lines = command.lines;
        totals = totals;
        idempotency_key = text_of command.idempotency_key;
      };
      security_code = generate_security_code fresh.random;
      request_hash = hash;
    }

-- The writes after the last check.
abbrev pub commit_document :
    CreateFiscalDocumentCommand → Fresh → List FiscalSequence → FiscalDocument → Store → Store
commit_document command fresh sequences document store = record store {
  sequences = sequences;
  documents = document ∷ store.documents;
  idempotency_keys =
      update_first (λ row. eq_text row.id fresh.idempotency_id)
        (λ row. record row { is_completed = true; fiscal_document_id = some document.fields.id })
        store.idempotency_keys;
  audit =
      record {
        action = codes "fiscal-document.created";
        tenant_id = command.tenant_id;
        company_id = command.company_id;
        actor = command.actor;
        resource = codes "FiscalDocument:" ++ document.fields.id;
      }
      ∷ store.audit;
}

-- From the allocation on.
unfoldable pub allocate_document :
    CreateFiscalDocumentCommand
    → Fresh
    → Company
    → CompanyFiscalProfile
    → Text
    → FiscalIssuancePoint
    → Text
    → Store
    → Result ServiceError (FiscalDocument × Store)
allocate_document command fresh company profile activity_code point hash store = do
  let allocated = allocate (key_of command point) fresh.sequence_id store.sequences
  reject_if (ltb 9999999999 allocated.0) (conflict "FISCAL_SEQUENCE_EXHAUSTED")
  consecutive ← or_throws (
      build_consecutive (record {
        branch_code = point.branch_code;
        terminal_code = point.terminal_code;
        document_type = command.document_type;
        sequence_value = allocated.0;
      }))
  clave ← or_throws (
      build_fiscal_key (record {
        issued_at = fresh.issue_date;
        issuer_identification_number = company.identification_number;
        consecutive = consecutive;
        security_code = generate_security_code fresh.random;
        situation = none;
      }))
  totals ← calculate_totals command.lines
  let document =
      new_document command fresh company profile activity_code point allocated.0 consecutive clave
        totals hash
  ok (document, commit_document command fresh allocated.1 document store)

-- After the reservation of the idempotency key.
unfoldable pub issue :
    CreateFiscalDocumentCommand
    → Fresh
    → Company
    → CompanyFiscalProfile
    → Text
    → Text
    → Store
    → Result ServiceError (FiscalDocument × Store)
issue command fresh company profile activity_code hash store = do
  reject_if (is_not_eligible fresh.eligibility) (bad_request "HACIENDA_CONNECTION_REQUIRED")
  _ ←
      require (find (is_usable_connection command fresh.eligibility) store.connections)
        (bad_request "HACIENDA_CONNECTION_REQUIRED")
  point ←
      require
        (find (is_default_point command.tenant_id command.company_id command.environment)
          store.points)
        (bad_request "FISCAL_ISSUANCE_POINT_REQUIRED")
  allocate_document command fresh company profile activity_code point hash store

unfoldable pub settle_reservation :
    CreateFiscalDocumentCommand
    → Fresh
    → Company
    → CompanyFiscalProfile
    → Text
    → Text
    → Store
    → Reservation
    → Result ServiceError (FiscalDocument × Store)
settle_reservation command fresh company profile activity_code hash store (replayed d) =
    ok (d, store)
settle_reservation command fresh company profile activity_code hash store (reserved store') =
    issue command fresh company profile activity_code hash store'

-- The checks of the transaction before the reservation. The API key is there, by the validation.
unfoldable pub check_tenancy :
    CreateFiscalDocumentCommand
    → Store
    → Result ServiceError (Company × CompanyFiscalProfile × Text)
check_tenancy command seen = do
  company ←
      require
        (find
          (λ c.
            eq_text c.id command.company_id && eq_text c.tenant_id command.tenant_id && c.is_active)
          seen.companies)
        (not_found "COMPANY_NOT_FOUND")
  _ ←
      require
        (find
          (λ a.
            eq_text a.api_key_id (text_of command.api_key_id)
            && eq_text a.company_id command.company_id)
          seen.api_key_companies)
        (forbidden "API_KEY_COMPANY_NOT_AUTHORIZED")
  profile ← get_ready_company_fiscal_profile seen command.tenant_id command.company_id
  ok (company, profile.0, profile.1)

unfoldable pub transaction :
    CreateFiscalDocumentCommand
    → Fresh
    → Text
    → Store
    → Store
    → Result ServiceError (FiscalDocument × Store)
transaction command fresh hash seen store = do
  issuer ← check_tenancy command seen
  reservation ← reserve_idempotency_key command fresh.idempotency_id hash seen store
  settle_reservation command fresh issuer.0 issuer.1 issuer.2 hash store reservation

-- `$transaction`: the response and the tables after it.
abbrev pub finish :
    Store
    → Result ServiceError (FiscalDocument × Store)
    → Result ServiceError (DocumentFields Text) × Store
finish store (ok (document, store')) = (ok (to_fiscal_document_response document), store')
finish store (err e) = (err e, store)

module _ (upper : Text → Text)
    (payload_hash : CreateFiscalDocumentCommand → Result ServiceError Text)
    (hash_request : CreateFiscalDocumentCommand → Text) where
  unfoldable pub create_document :
      CreateFiscalDocumentCommand
      → Fresh
      → Store
      → Store
      → Result ServiceError (DocumentFields Text) × Store
  create_document command fresh seen store = finish store (
      validate_create_command upper payload_hash command
      >> transaction command fresh (hash_request command) seen store)
