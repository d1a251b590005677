-- ===== src/FiscalDocument/Administration.antt =====
-- application/fiscal-document.service.ts: configureSequence, ensureDefaultIssuancePoint and
-- getDocument. configureSequence runs in no transaction: `seen` are the tables of its lookups,
-- `store` those of its upsert. `BigInt(input.nextValue)` is the argument `next_value`.
use billing_api.Common.{
  ℕ, Bool, true, false, not, ◌&&◌, ◌||◌, List, [], ◌∷◌, ◌++◌, Option, none, some, is_some, Text,
  codes, ℤ, pos, negsuc, eq_text, includes, ltb, if◌then◌else◌, find, Result, ok, ◌>>=◌, ◌>>◌,
  reject_if,
}
use billing_api.FiscalDocument.{
  FiscalDocumentType, invoice, ticket, HaciendaEnvironment, ServiceError, bad_request, not_found,
  conflict, forbidden,
}
use billing_api.FiscalDocument.Store.{
  same_environment, Company, FiscalIssuancePoint, SequenceKey, FiscalSequence, DocumentFields,
  Store, same_key, to_fiscal_document_response, require,
}
use billing_api.FiscalDocument.Creation.{is_default_point}

unfoldable pub assert_tenant_admin : Text → Result ServiceError (Unit {0})
assert_tenant_admin role =
    reject_if (not (eq_text role (codes "TENANT_ADMIN"))) (forbidden "ADMIN_ROLE_REQUIRED")

unfoldable pub find_tenant_company : Text → Text → Store → Result ServiceError Company
find_tenant_company tenant_id company_id store =
    require (find (λ c. eq_text c.id company_id && eq_text c.tenant_id tenant_id) store.companies)
      (not_found "COMPANY_NOT_FOUND")

pub record ConfigureSequence : Type 0 where
  pub tenant_id : Text
  pub company_id : Text
  pub environment : HaciendaEnvironment
  pub document_type : FiscalDocumentType
  pub next_value : ℤ
  pub actor : Text

-- `1n <= nextValue <= 9999999999n`
unfoldable pub in_range : ℤ → Option ℕ
in_range (negsuc n) = none
in_range (pos n) = if ltb n 1 || ltb 9999999999 n then none else some n

-- Whether the sequence of a key has assigned a value.
unfoldable pub is_started : SequenceKey → List FiscalSequence → Bool
is_started key [] = false
is_started key (s ∷ rest) =
    if same_key s.key key then is_some s.last_assigned else is_started key rest

-- The upsert.
unfoldable pub set_next_value : SequenceKey → Text → ℕ → List FiscalSequence → List FiscalSequence
set_next_value key id n [] =
    record { id = id; key = key; next_value = n; last_assigned = none } ∷ []
set_next_value key id n (s ∷ rest) =
    if same_key s.key key
    then record s { next_value = n } ∷ rest
    else s ∷ set_next_value key id n rest

abbrev pub configured : ConfigureSequence → FiscalIssuancePoint → SequenceKey
configured input point = record {
  tenant_id = input.tenant_id;
  company_id = input.company_id;
  environment = input.environment;
  branch_code = point.branch_code;
  terminal_code = point.terminal_code;
  document_type = input.document_type;
}

-- The checks, with the key and the value to store.
unfoldable pub check_sequence : ConfigureSequence → Store → Result ServiceError (SequenceKey × ℕ)
check_sequence input seen = do
  assert_tenant_admin input.actor
  _ ← find_tenant_company input.tenant_id input.company_id seen
  point ←
      require
        (find (is_default_point input.tenant_id input.company_id input.environment) seen.points)
        (bad_request "FISCAL_ISSUANCE_POINT_REQUIRED")
  next_value ← require (in_range input.next_value) (bad_request "INVALID_SEQUENCE_VALUE")
  reject_if (is_started (configured input point) seen.sequences)
      (conflict "FISCAL_SEQUENCE_ALREADY_STARTED")
  ok (configured input point, next_value)

-- The id of the row that the upsert returns, which keeps its own.
unfoldable pub sequence_id : SequenceKey → Text → List FiscalSequence → Text
sequence_id key id [] = id
sequence_id key id (s ∷ rest) = if same_key s.key key then s.id else sequence_id key id rest

abbrev pub store_sequence : Text → Store → SequenceKey × ℕ → Store
store_sequence id store (key, n) = record store {
  sequences = set_next_value key id n store.sequences;
  audit =
      record {
        action = codes "fiscal-sequence.configured";
        tenant_id = key.tenant_id;
        company_id = key.company_id;
        actor = some (codes "TENANT_ADMIN");
        resource = codes "FiscalSequence:" ++ sequence_id key id store.sequences;
      }
      ∷ store.audit;
}

unfoldable pub configure_sequence :
    ConfigureSequence → Text → Store → Store → Result ServiceError Store
configure_sequence input id seen store =
    check_sequence input seen >>= λ target. ok (store_sequence id store target)

abbrev pub read_scope : FiscalDocumentType → Text
read_scope invoice = codes "invoices:read"
read_scope ticket = codes "tickets:read"

-- The response and the tables, which have one more event of the audit.
unfoldable pub get_document :
    Text → Text → Text → List Text → Store → Result ServiceError (DocumentFields Text × Store)
get_document tenant_id document_id api_key_id scopes store = do
  document ←
      require
        (find (λ d. eq_text d.fields.id document_id && eq_text d.fields.key.tenant_id tenant_id)
          store.documents)
        (not_found "FISCAL_DOCUMENT_NOT_FOUND")
  reject_if (not (includes scopes (read_scope document.fields.key.document_type)))
      (forbidden "INSUFFICIENT_SCOPE")
  _ ←
      require
        (find
          (λ a.
            eq_text a.api_key_id api_key_id && eq_text a.company_id document.fields.key.company_id)
          store.api_key_companies)
        (forbidden "API_KEY_COMPANY_NOT_AUTHORIZED")
  ok (
    to_fiscal_document_response document,
    record store {
      audit =
          record {
            action = codes "fiscal-document.read";
            tenant_id = tenant_id;
            company_id = document.fields.key.company_id;
            actor = none;
            resource = codes "FiscalDocument:" ++ document.fields.id;
          }
          ∷ store.audit;
    },
  )

-- The point that a company has by default; its name is left out.
abbrev is_first_point : Text → HaciendaEnvironment → FiscalIssuancePoint → Bool
is_first_point company_id environment p =
    eq_text p.company_id company_id
    && same_environment p.environment environment
    && eq_text p.branch_code (codes "001")
    && eq_text p.terminal_code (codes "00001")

unfoldable pub upsert_point :
    Text → Text → Text → HaciendaEnvironment → List FiscalIssuancePoint → List FiscalIssuancePoint
upsert_point id tenant_id company_id environment [] =
    record {
      id = id;
      tenant_id = tenant_id;
      company_id = company_id;
      environment = environment;
      branch_code = codes "001";
      terminal_code = codes "00001";
      active = true;
      is_default = true;
    }
    ∷ []
upsert_point id tenant_id company_id environment (p ∷ rest) =
    if is_first_point company_id environment p
    then record p { active = true; is_default = true } ∷ rest
    else p ∷ upsert_point id tenant_id company_id environment rest

-- The id of the row that the upsert returns.
unfoldable pub point_id : Text → Text → HaciendaEnvironment → List FiscalIssuancePoint → Text
point_id id company_id environment [] = id
point_id id company_id environment (p ∷ rest) =
    if is_first_point company_id environment p
    then p.id
    else point_id id company_id environment rest

unfoldable pub ensure_default_issuance_point :
    Text → Text → Text → Text → HaciendaEnvironment → Store → Result ServiceError Store
ensure_default_issuance_point actor id tenant_id company_id environment store = do
  assert_tenant_admin actor
  _ ← find_tenant_company tenant_id company_id store
  ok (record store {
    points = upsert_point id tenant_id company_id environment store.points;
    audit =
        record {
          action = codes "fiscal-issuance-point.upserted";
          tenant_id = tenant_id;
          company_id = company_id;
          actor = some actor;
          resource =
              codes "FiscalIssuancePoint:" ++ point_id id company_id environment store.points;
        }
        ∷ store.audit;
  })
