-- ===== src/FiscalDocument/Creation/Outcomes.antt =====
-- What createDocument has done when it returns: a document of an earlier request, or a new one
-- with the next number of its sequence.
use billing_api.Common.{
  ◌≤◌, ◌≡◌, ◌⊎◌, inl, inr, sym, ◌∷◌, none, some, Text, eq_text, update_first, find, ok, ◌>>=◌,
  >>=-ok, arith, true, Option-cases,
}
use billing_api.FiscalDocument.{CreateFiscalDocumentCommand}
use billing_api.FiscalDocument.Store.{
  Company, CompanyFiscalProfile, FiscalIssuancePoint, FiscalDocument, FiscalIdempotencyKey, Store,
}
use billing_api.FiscalDocument.Idempotency.{
  Reservation, reserved, replayed, is_idempotency_row, new_idempotency_row, reserve_idempotency_key,
  insert_idempotency_key, named_document, resolve_existing_idempotency_key,
}
use billing_api.FiscalDocument.Creation.{
  Fresh, is_default_point, allocate, allocate_document, issue, settle_reservation, check_tenancy,
  transaction,
}

-- The document `d` is new in `after`: it has the number that its sequence assigns.
pub record Issued (command : CreateFiscalDocumentCommand) (fresh : Fresh) (hash : Text)
    (before : Store) (d : FiscalDocument) (after : Store) : Type 0 where
  pub sequences_lem : after.sequences ≡ (allocate d.fields.key fresh.sequence_id before.sequences).1
  pub value_lem :
      d.fields.sequence_value ≡ (allocate d.fields.key fresh.sequence_id before.sequences).0
  pub documents_lem : after.documents ≡ d ∷ before.documents
  pub hash_lem : d.request_hash ≡ hash
  pub id_lem : d.fields.id ≡ fresh.document_id
  pub largest : d.fields.sequence_value ≤ 9999999999
  pub keys_lem :
      after.idempotency_keys
      ≡ update_first
          (λ row. eq_text row.id fresh.idempotency_id)
          (λ row. record row { is_completed = true; fiscal_document_id = some fresh.document_id })
          before.idempotency_keys
  pub tenant_lem : d.fields.key.tenant_id ≡ command.tenant_id
  pub company_lem : d.fields.key.company_id ≡ command.company_id
  pub environment_lem : d.fields.key.environment ≡ command.environment
  pub type_lem : d.fields.key.document_type ≡ command.document_type
  pub untouched :
      (after.companies ≡ before.companies)
      × (after.api_key_companies ≡ before.api_key_companies)
      × (after.profiles ≡ before.profiles)
      × (after.activities ≡ before.activities)
      × (after.points ≡ before.points)
      × (after.connections ≡ before.connections)

module _ (command : CreateFiscalDocumentCommand) (fresh : Fresh) (company : Company)
    (profile : CompanyFiscalProfile) (code : Text) (point : FiscalIssuancePoint) (hash : Text)
    (store : Store) (d : FiscalDocument) (after : Store)
    (h : allocate_document command fresh company profile code point hash store
      ≡ ok (d, after)) where
  allocate_document-Issued : Issued command fresh hash store d after
  unfolding allocate_document
  allocate_document-Issued = record {
    sequences_lem = ground arith;
    value_lem = ground arith;
    documents_lem = ground arith;
    hash_lem = ground arith;
    id_lem = ground arith;
    largest = ground arith;
    keys_lem = ground arith;
    tenant_lem = ground arith;
    company_lem = ground arith;
    environment_lem = ground arith;
    type_lem = ground arith;
    untouched = ground arith;
  }

module _ (command : CreateFiscalDocumentCommand) (fresh : Fresh) (company : Company)
    (profile : CompanyFiscalProfile) (code : Text) (hash : Text) (store : Store)
    (d : FiscalDocument) (after : Store) where
  point-found :
      issue command fresh company profile code hash store ≡ ok (d, after)
      → (point : FiscalIssuancePoint) × (allocate_document command fresh company profile code point
            hash store
          ≡ ok (d, after))
  unfolding issue
  point-found h =
      elim (Option-cases (
        find (is_default_point command.tenant_id command.company_id command.environment)
          store.points)) [ inl e ↦ absurd (ground arith) | inr (point, e) ↦ (point, ground arith) ]

  issue-Issued :
      issue command fresh company profile code hash store ≡ ok (d, after)
      → Issued command fresh hash store d after
  issue-Issued h =
      let (point, k) = point-found h in
      allocate_document-Issued command fresh company profile code point hash store d after k

-- The tables with the idempotency key of a command reserved.
abbrev pub reserve_in : CreateFiscalDocumentCommand → Fresh → Text → Store → Store
reserve_in command fresh hash store = record store {
  idempotency_keys = new_idempotency_row command fresh.idempotency_id hash ∷ store.idempotency_keys;
}

-- A document of an earlier request: a row of `tables` has the key of the command and its hash.
pub record Replayed (command : CreateFiscalDocumentCommand) (hash : Text) (tables : Store)
    (d : FiscalDocument) : Type 0 where
  pub row : FiscalIdempotencyKey
  pub row_lem : find (is_idempotency_row command) tables.idempotency_keys ≡ some row
  pub hash_lem : eq_text row.request_hash hash ≡ true
  pub document_lem : named_document tables.documents row.fiscal_document_id ≡ some d

resolve-Replayed :
    (command : CreateFiscalDocumentCommand) (hash : Text) (tables : Store)
    (row : FiscalIdempotencyKey) (d : FiscalDocument)
    → find (is_idempotency_row command) tables.idempotency_keys ≡ some row
    → resolve_existing_idempotency_key tables.documents row hash ≡ ok d
    → Replayed command hash tables d
unfolding resolve_existing_idempotency_key
resolve-Replayed command hash tables row d e h = record {
  row = row;
  row_lem = e;
  hash_lem = ground arith;
  document_lem = ground arith;
}

-- What a reservation is.
abbrev pub IsReservation :
    CreateFiscalDocumentCommand → Fresh → Text → Store → Store → Reservation → Type 0
IsReservation command fresh hash seen store (reserved store') =
    (store' ≡ reserve_in command fresh hash store)
    × (find (is_idempotency_row command) store.idempotency_keys ≡ none)
IsReservation command fresh hash seen store (replayed d) =
    Replayed command hash seen d ⊎ Replayed command hash store d

module _ (command : CreateFiscalDocumentCommand) (fresh : Fresh) (hash : Text)
    (seen store : Store) where
  insert-IsReservation :
      (r : Reservation)
      → insert_idempotency_key command fresh.idempotency_id hash store ≡ ok r
      → IsReservation command fresh hash seen store r
  unfolding insert_idempotency_key
  insert-IsReservation (reserved store') h =
      elim (Option-cases (find (is_idempotency_row command) store.idempotency_keys)) [
        | inl e ↦ (ground arith, e)
        | inr (row, e) ↦ absurd (ground arith)
      ]
  insert-IsReservation (replayed d) h =
      elim (Option-cases (find (is_idempotency_row command) store.idempotency_keys)) [
        | inl e ↦ absurd (ground arith)
        | inr (row, e) ↦ inr (resolve-Replayed command hash store row d e (ground arith))
      ]

  reserve-IsReservation :
      (r : Reservation)
      → reserve_idempotency_key command fresh.idempotency_id hash seen store ≡ ok r
      → IsReservation command fresh hash seen store r
  unfolding reserve_idempotency_key
  reserve-IsReservation (reserved store') h =
      elim (Option-cases (find (is_idempotency_row command) seen.idempotency_keys)) [
        | inl e ↦ insert-IsReservation (reserved store') (ground arith)
        | inr (row, e) ↦ absurd (ground arith)
      ]
  reserve-IsReservation (replayed d) h =
      elim (Option-cases (find (is_idempotency_row command) seen.idempotency_keys)) [
        | inl e ↦ insert-IsReservation (replayed d) (ground arith)
        | inr (row, e) ↦ inl (resolve-Replayed command hash seen row d e (ground arith))
      ]

  -- A transaction that commits: either it has changed nothing and gives the document of an earlier
  -- request, or no request had the key and the document is new.
  abbrev pub Outcome : FiscalDocument → Store → Type 0
  Outcome d after =
      ((after ≡ store) × (Replayed command hash seen d ⊎ Replayed command hash store d))
      ⊎ (Issued command fresh hash (reserve_in command fresh hash store) d after
          × (find (is_idempotency_row command) store.idempotency_keys ≡ none))

  settle-Outcome :
      (company : Company) (profile : CompanyFiscalProfile) (code : Text) (r : Reservation)
      (d : FiscalDocument) (after : Store)
      → IsReservation command fresh hash seen store r
      → settle_reservation command fresh company profile code hash store r ≡ ok (d, after)
      → Outcome d after
  unfolding settle_reservation
  settle-Outcome company profile code (reserved store') d after (e, f) h = inr (
    issue-Issued command fresh company profile code hash (reserve_in command fresh hash store) d
        after (rw (sym e) h),
    f,
  )
  settle-Outcome company profile code (replayed x) d after p h =
      let e : x ≡ d = ground arith in inl (ground arith, rw (sym e) p)

  pub transaction-Outcome :
      (d : FiscalDocument) (after : Store)
      → transaction command fresh hash seen store ≡ ok (d, after)
      → Outcome d after
  unfolding transaction
  transaction-Outcome d after h =
      let (issuer, _, h1) =
        >>=-ok (check_tenancy command seen)
          (λ issuer. reserve_idempotency_key command fresh.idempotency_id hash seen store >>= λ r.
            settle_reservation command fresh issuer.0 issuer.1 issuer.2 hash store r)
          h in
      let (r, e, h2) =
        >>=-ok (reserve_idempotency_key command fresh.idempotency_id hash seen store)
          (λ r. settle_reservation command fresh issuer.0 issuer.1 issuer.2 hash store r) h1 in
      settle-Outcome issuer.0 issuer.1 issuer.2 r d after (reserve-IsReservation r e) h2
