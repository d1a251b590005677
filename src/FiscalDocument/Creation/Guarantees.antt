-- ===== src/FiscalDocument/Creation/Guarantees.antt =====
-- What createDocument and configureSequence guarantee of the tables.
use billing_api.Common.{
  ℕ, ◌≡◌, inl, inr, refl, sym, ap, ◌∙◌, true, false, some, Text, eq_text, eq_text_self, find,
  Result, ok, err, ◌>>◌, >>=-ok, arith, Result-cases, ok-injective, ◌≢◌,
}
use billing_api.FiscalDocument.{ServiceError, conflict, CreateFiscalDocumentCommand}
use billing_api.FiscalDocument.Store.{
  SequenceKey, FiscalDocument, FiscalIdempotencyKey, Store, DocumentFields,
  to_fiscal_document_response,
}
use billing_api.FiscalDocument.Validation.{validate_create_command, text_of}
use billing_api.FiscalDocument.Profile.{get_ready_company_fiscal_profile}
use billing_api.FiscalDocument.Idempotency.{
  operation_of, new_idempotency_row, is_idempotency_row, resolve_existing_idempotency_key,
  reserve_idempotency_key,
}
use billing_api.FiscalDocument.Creation.{
  Fresh, check_tenancy, transaction, settle_reservation, finish, create_document,
}
use billing_api.FiscalDocument.Creation.Outcomes.{
  Issued, Replayed, Outcome, reserve_in, transaction-Outcome,
}
use billing_api.FiscalDocument.Administration.{
  ConfigureSequence, configure_sequence, check_sequence, store_sequence, is_started,
}
use billing_api.FiscalDocument.Numbering.{
  IsNumbered, allocate-IsNumbered, set_next_value-IsNumbered,
}

module _ (command : CreateFiscalDocumentCommand) (hash : Text) (seen store : Store) where
  -- A key that an earlier request has used gives its document, and changes nothing.
  transaction-replays :
      (fresh : Fresh) (d : FiscalDocument)
      → Replayed command hash seen d
      → ((e : ServiceError) → check_tenancy command seen ≢ err e)
      → transaction command fresh hash seen store ≡ ok (d, store)
  unfolding transaction reserve_idempotency_key resolve_existing_idempotency_key settle_reservation
  transaction-replays fresh d r t =
      let a = r.row_lem in
      let b = r.hash_lem in
      let c = r.document_lem in
      elim (Result-cases (check_tenancy command seen)) [
        | inl (x, e) ↦ ground arith
        | inr (x, e) ↦ absurd (t x e)
      ]

  -- Another hash under the key of an earlier request is refused.
  transaction-conflict :
      (fresh : Fresh) (row : FiscalIdempotencyKey)
      → find (is_idempotency_row command) seen.idempotency_keys ≡ some row
      → eq_text row.request_hash hash ≡ false
      → (e : ServiceError) × (transaction command fresh hash seen store ≡ err e)
  unfolding transaction reserve_idempotency_key resolve_existing_idempotency_key settle_reservation
  transaction-conflict fresh row e h = elim (Result-cases (check_tenancy command seen)) [
    | inl (x, k) ↦ (conflict "IDEMPOTENCY_KEY_REUSED_WITH_DIFFERENT_REQUEST", ground arith)
    | inr (x, k) ↦ (x, ground arith)
  ]

check_tenancy-cong :
    (command : CreateFiscalDocumentCommand) (a b : Store)
    → a.companies ≡ b.companies
    → a.api_key_companies ≡ b.api_key_companies
    → a.profiles ≡ b.profiles
    → a.activities ≡ b.activities
    → check_tenancy command a ≡ check_tenancy command b
unfolding check_tenancy get_ready_company_fiscal_profile
check_tenancy-cong command a b p q r s = rw (p, q) (rw (r, s) refl)

-- The new document stands under the key of its command.
Issued-Replayed :
    (command : CreateFiscalDocumentCommand) (fresh : Fresh) (hash : Text) (store after : Store)
    (d : FiscalDocument)
    → Issued command fresh hash (reserve_in command fresh hash store) d after
    → Replayed command hash after d
Issued-Replayed command fresh hash store after d i = record {
  row = record (new_idempotency_row command fresh.idempotency_id hash) {
    is_completed = true;
    fiscal_document_id = some fresh.document_id;
  };
  row_lem = rw (i.keys_lem) (
      ground (
        arith,
        eq_text_self fresh.idempotency_id,
        eq_text_self command.tenant_id,
        eq_text_self command.company_id,
        eq_text_self (operation_of command.document_type),
        eq_text_self (text_of command.idempotency_key),
      ));
  hash_lem = eq_text_self hash;
  document_lem =
      rw (i.documents_lem) (rw (i.id_lem) (ground (arith, eq_text_self fresh.document_id)));
}

Outcome-IsNumbered :
    (command : CreateFiscalDocumentCommand) (fresh : Fresh) (hash : Text) (seen store : Store)
    (d : FiscalDocument) (after : Store)
    → IsNumbered store
    → Outcome command fresh hash seen store d after
    → IsNumbered after
Outcome-IsNumbered command fresh hash seen store d after h (inl (e, _)) = rw e h
Outcome-IsNumbered command fresh hash seen store d after h (inr (i, _)) =
    allocate-IsNumbered (reserve_in command fresh hash store) after d fresh.sequence_id
      i.sequences_lem i.value_lem i.documents_lem
      (record { assigned = h.assigned; distinct = h.distinct })

finish-IsNumbered :
    (store : Store) (r : Result ServiceError (FiscalDocument × Store))
    → IsNumbered store
    → ((d : FiscalDocument) (after : Store) → r ≡ ok (d, after) → IsNumbered after)
    → IsNumbered (finish store r).1
finish-IsNumbered store (ok (d, after)) h f = f d after refl
finish-IsNumbered store (err e) h f = h

module _ (upper : Text → Text)
    (payload_hash : CreateFiscalDocumentCommand → Result ServiceError Text)
    (hash_request : CreateFiscalDocumentCommand → Text)
    (command : CreateFiscalDocumentCommand) where
  committed-Replayed :
      (fresh : Fresh) (store : Store) (d : FiscalDocument) (after : Store)
      → transaction command fresh (hash_request command) store store ≡ ok (d, after)
      → Replayed command (hash_request command) after d
  committed-Replayed fresh store d after t =
      elim (transaction-Outcome command fresh (hash_request command) store store d after t) [
        | inl (e, inl r) ↦ rw (e) r
        | inl (e, inr r) ↦ rw (e) r
        | inr (i, _) ↦ Issued-Replayed command fresh (hash_request command) store after d i
      ]

  committed-same :
      (fresh : Fresh) (store : Store) (d : FiscalDocument) (after : Store)
      → transaction command fresh (hash_request command) store store ≡ ok (d, after)
      → check_tenancy command store ≡ check_tenancy command after
  committed-same fresh store d after t =
      elim (transaction-Outcome command fresh (hash_request command) store store d after t) [
        | inl (e, _) ↦ ap (check_tenancy command) (sym e)
        | inr (i, _) ↦
            let (a, b, c, f, _, _) = i.untouched in
            check_tenancy-cong command store after (sym a) (sym b) (sym c) (sym f)
      ]

  transaction-tenancy :
      (fresh : Fresh) (store : Store) (d : FiscalDocument) (after : Store)
      → transaction command fresh (hash_request command) store store ≡ ok (d, after)
      → (e : ServiceError) → check_tenancy command store ≢ err e
  unfolding transaction
  transaction-tenancy fresh store d after t e k = ground arith

  committed-tenancy :
      (fresh : Fresh) (store : Store) (d : FiscalDocument) (after : Store)
      → transaction command fresh (hash_request command) store store ≡ ok (d, after)
      → (e : ServiceError) → check_tenancy command after ≢ err e
  committed-tenancy fresh store d after t e k =
      let l : check_tenancy command store ≡ err e = committed-same fresh store d after t ∙ k in
      transaction-tenancy fresh store d after t e l

  -- A call that returns a response.
  abbrev Committed : Fresh → Store → Store → DocumentFields Text → Store → Type 0
  Committed fresh seen store response after =
      (d : FiscalDocument) × (validate_create_command upper payload_hash command ≡ ok tt)
      × (transaction command fresh (hash_request command) seen store ≡ ok (d, after))
      × (response ≡ to_fiscal_document_response d)

  committed-create_document :
      (fresh : Fresh) (seen store : Store) (d : FiscalDocument) (after : Store)
      → validate_create_command upper payload_hash command ≡ ok tt
      → transaction command fresh (hash_request command) seen store ≡ ok (d, after)
      → create_document upper payload_hash hash_request command fresh seen store
        ≡ (ok (to_fiscal_document_response d), after)
  unfolding create_document
  committed-create_document fresh seen store d after v h = rw v (rw h refl)

  create_document-Committed :
      (fresh : Fresh) (seen store : Store) (response : DocumentFields Text) (after : Store)
      → create_document upper payload_hash hash_request command fresh seen store
        ≡ (ok response, after)
      → Committed fresh seen store response after
  unfolding create_document
  create_document-Committed fresh seen store response after h =
      elim (Result-cases (validate_create_command upper payload_hash command)) [
        | inr (e, k) ↦ absurd (ground arith)
        | inl (u, k) ↦
            elim (Result-cases (transaction command fresh (hash_request command) seen store)) [
              | inr (e, l) ↦ absurd (ground arith)
              | inl ((d, s), l) ↦
                  let q = sym (committed-create_document fresh seen store d s k l) ∙ h in
                  let t : s ≡ after = ap (λ x. x.1) q in
                  (
                    d,
                    k,
                    l ∙ ap (λ x. ok (d, x)) t,
                    sym (ok-injective (to_fiscal_document_response d) response (ap (λ x. x.0) q)),
                  )
            ]
      ]

  -- If createDocument returns a response, with no other call between its lookups and its insertion,
  -- sending the request again gives the same response and changes nothing, whatever connection, date
  -- and identifiers the second call meets, if the tables that it meets are those that the first call
  -- left.
  pub create_document_idempotent :
      (fresh again : Fresh) (store : Store) (response : DocumentFields Text) (after : Store)
      → create_document upper payload_hash hash_request command fresh store store
        ≡ (ok response, after)
      → create_document upper payload_hash hash_request command again after after
        ≡ (ok response, after)
  create_document_idempotent fresh again store response after h =
      let (d, v, t, e) = create_document-Committed fresh store store response after h in
      let r = committed-Replayed fresh store d after t in
      committed-create_document again after after d after v (
        transaction-replays command (hash_request command) after after again d r
          (committed-tenancy fresh store d after t))
      ∙ ap (λ x. (ok x, after)) (sym e)

  -- A request under a key that another request has used is refused, and changes nothing.
  pub create_document_conflict :
      (fresh : Fresh) (seen store : Store) (row : FiscalIdempotencyKey)
      → find (is_idempotency_row command) seen.idempotency_keys ≡ some row
      → eq_text row.request_hash (hash_request command) ≡ false
      → (e : ServiceError) × (create_document upper payload_hash hash_request command fresh seen
            store
          ≡ (err e, store))
  unfolding create_document
  create_document_conflict fresh seen store row f h =
      let (e, k) = transaction-conflict command (hash_request command) seen store fresh row f h in
      elim (Result-cases (validate_create_command upper payload_hash command)) [
        | inr (x, l) ↦ (x, ground arith)
        | inl (_, l) ↦ (e, ground arith)
      ]

  -- The invariant of the numbers: documents of one sequence have different numbers, each of them
  -- assigned. createDocument keeps it, whatever it returns.
  pub create_document-IsNumbered :
      (fresh : Fresh) (seen store : Store)
      → IsNumbered store
      → IsNumbered (create_document upper payload_hash hash_request command fresh seen store).1
  unfolding create_document
  create_document-IsNumbered fresh seen store h =
      finish-IsNumbered store
        (validate_create_command upper payload_hash command
          >> transaction command fresh (hash_request command) seen store)
        h
        (λ d after k.
          let (_, _, t) =
            >>=-ok (validate_create_command upper payload_hash command)
              (λ _. transaction command fresh (hash_request command) seen store) k in
          Outcome-IsNumbered command fresh (hash_request command) seen store d after h
            (transaction-Outcome command fresh (hash_request command) seen store d after t))

check_sequence-unstarted :
    (input : ConfigureSequence) (seen : Store) (key : SequenceKey) (n : ℕ)
    → check_sequence input seen ≡ ok (key, n)
    → is_started key seen.sequences ≡ false
unfolding check_sequence
check_sequence-unstarted input seen key n h = ground arith

-- configureSequence keeps the invariant of the numbers, if no other call runs between its lookups
-- and its upsert.
pub configure_sequence-IsNumbered :
    (input : ConfigureSequence) (id : Text) (store after : Store)
    → IsNumbered store
    → configure_sequence input id store store ≡ ok after
    → IsNumbered after
unfolding configure_sequence
configure_sequence-IsNumbered input id store after h k =
    let ((key, n), e, q) =
      >>=-ok (check_sequence input store) (λ t. ok (store_sequence id store t)) k in
    let p = ok-injective (store_sequence id store (key, n)) after q in
    set_next_value-IsNumbered store after key id n (check_sequence-unstarted input store key n e)
      (ap (λ s. s.sequences) (sym p)) (ap (λ s. s.documents) (sym p)) h
