-- ===== src/FiscalDocument/Idempotency.antt =====
-- application/fiscal-document.service.ts, reserveIdempotencyKey and resolveExistingIdempotencyKey.
-- `seen` are the tables that the first lookup saw, `store` those of the insertion.
use billing_api.Common.{
  Bool, false, not, ◌&&◌, List, ◌∷◌, Option, none, some, Text, codes, eq_text, find, Result, ok,
  ◌>>=◌, ◌>>◌, reject_if,
}
use billing_api.FiscalDocument.{
  FiscalDocumentType, invoice, ticket, ServiceError, conflict, CreateFiscalDocumentCommand,
}
use billing_api.FiscalDocument.Validation.{text_of}
use billing_api.FiscalDocument.Store.{FiscalIdempotencyKey, FiscalDocument, Store, require}

abbrev pub operation_of : FiscalDocumentType → Text
operation_of invoice = codes "fiscal-document.create.invoice"
operation_of ticket = codes "fiscal-document.create.ticket"

-- The unique key of the idempotency table.
abbrev pub is_idempotency_row : CreateFiscalDocumentCommand → FiscalIdempotencyKey → Bool
is_idempotency_row command row =
    eq_text row.tenant_id command.tenant_id
    && eq_text row.company_id command.company_id
    && eq_text row.operation (operation_of command.document_type)
    && eq_text row.key (text_of command.idempotency_key)

-- The document that an idempotency row names.
abbrev pub named_document : List FiscalDocument → Option Text → Option FiscalDocument
named_document documents none = none
named_document documents (some id) = find (λ d. eq_text d.fields.id id) documents

unfoldable pub resolve_existing_idempotency_key :
    List FiscalDocument → FiscalIdempotencyKey → Text → Result ServiceError FiscalDocument
resolve_existing_idempotency_key documents existing request_hash = do
  reject_if (not (eq_text existing.request_hash request_hash))
      (conflict "IDEMPOTENCY_KEY_REUSED_WITH_DIFFERENT_REQUEST")
  require (named_document documents existing.fiscal_document_id)
      (conflict "IDEMPOTENCY_REQUEST_IN_PROGRESS")

-- A reserved key, or the document of an earlier request.
pub data Reservation : Type 0 where
  reserved : Store → Reservation
  replayed : FiscalDocument → Reservation

-- The row that is inserted.
abbrev pub new_idempotency_row : CreateFiscalDocumentCommand → Text → Text → FiscalIdempotencyKey
new_idempotency_row command id request_hash = record {
  id = id;
  tenant_id = command.tenant_id;
  company_id = command.company_id;
  key = text_of command.idempotency_key;
  api_key_id = text_of command.api_key_id;
  operation = operation_of command.document_type;
  request_hash = request_hash;
  is_completed = false;
  fiscal_document_id = none;
}

-- `INSERT … ON CONFLICT DO NOTHING`, and the lookup of the row that another request inserted.
unfoldable pub insert_idempotency_key :
    CreateFiscalDocumentCommand → Text → Text → Store → Result ServiceError Reservation
insert_idempotency_key command id request_hash store =
    elim (find (is_idempotency_row command) store.idempotency_keys) [
      | some raced ↦ resolve_existing_idempotency_key store.documents raced request_hash >>= λ d.
          ok (replayed d)
      | none ↦ ok (
          reserved (record store {
            idempotency_keys = new_idempotency_row command id request_hash ∷ store.idempotency_keys;
          }))
    ]

unfoldable pub reserve_idempotency_key :
    CreateFiscalDocumentCommand → Text → Text → Store → Store → Result ServiceError Reservation
reserve_idempotency_key command id request_hash seen store =
    elim (find (is_idempotency_row command) seen.idempotency_keys) [
      | some existing ↦
          resolve_existing_idempotency_key seen.documents existing request_hash >>= λ d.
          ok (replayed d)
      | none ↦ insert_idempotency_key command id request_hash store
    ]
