-- ===== src/FiscalDocument/Numbering.antt =====
-- The numbers of documents: the sequences of application/fiscal-document.service.ts against the
-- documents that stand in the table.
use billing_api.Common.{
  ℕ, ◌+◌, ◌<◌, ◌≡◌, ◌≢◌, inl, inr, refl, ap, true, false, List, [], ◌∷◌, Text, if◌then◌else◌, All,
  All-map, ◌∙◌, eq_text_sound, eq_text_self, Bool-cases, arith,
}
use billing_api.FiscalDocument.{
  HaciendaEnvironment, production, sandbox, FiscalDocumentType, invoice, ticket,
}
use billing_api.FiscalDocument.Store.{
  SequenceKey, FiscalSequence, FiscalDocument, Store, same_environment, same_type, same_key,
}
use billing_api.FiscalDocument.Creation.{allocate}
use billing_api.FiscalDocument.Administration.{is_started, set_next_value}

same_environment_sound : (a b : HaciendaEnvironment) → same_environment a b ≡ true → a ≡ b
unfolding same_environment
same_environment_sound production production h = refl
same_environment_sound sandbox sandbox h = refl
same_environment_sound production sandbox h = cc
same_environment_sound sandbox production h = cc

same_type_sound : (a b : FiscalDocumentType) → same_type a b ≡ true → a ≡ b
unfolding same_type
same_type_sound invoice invoice h = refl
same_type_sound ticket ticket h = refl
same_type_sound invoice ticket h = cc
same_type_sound ticket invoice h = cc

pub same_key_sound : (a b : SequenceKey) → same_key a b ≡ true → a ≡ b
unfolding same_key
same_key_sound a b h = ground (
  arith,
  eq_text_sound a.tenant_id b.tenant_id,
  eq_text_sound a.company_id b.company_id,
  same_environment_sound a.environment b.environment,
  eq_text_sound a.branch_code b.branch_code,
  eq_text_sound a.terminal_code b.terminal_code,
  same_type_sound a.document_type b.document_type,
)

pub same_key_self : (a : SequenceKey) → same_key a a ≡ true
unfolding same_key same_environment same_type
same_key_self a = ground (
  arith,
  eq_text_self a.tenant_id,
  eq_text_self a.company_id,
  eq_text_self a.branch_code,
  eq_text_self a.terminal_code,
)

-- The value that the next document of a key gets.
unfoldable pub next_of : SequenceKey → List FiscalSequence → ℕ
next_of key [] = 1
next_of key (s ∷ rest) = if same_key s.key key then s.next_value else next_of key rest

pub allocate-next_of :
    (key : SequenceKey) (id : Text) (rows : List FiscalSequence)
    → (allocate key id rows).0 ≡ next_of key rows
unfolding allocate next_of
allocate-next_of key id [] = refl
allocate-next_of key id (s ∷ rest) = ground (arith, allocate-next_of key id rest)

next_of-allocate-same :
    (key : SequenceKey) (id : Text) (rows : List FiscalSequence)
    → (next_of key (allocate key id rows).1 ≡ next_of key rows + 1)
      × (is_started key (allocate key id rows).1 ≡ true)
unfolding allocate next_of is_started
next_of-allocate-same key id [] = ground (arith, same_key_self key)
next_of-allocate-same key id (s ∷ rest) = ground (arith, next_of-allocate-same key id rest)

next_of-allocate-other :
    (key k : SequenceKey) (id : Text) (rows : List FiscalSequence)
    → same_key key k ≡ false
    → (next_of k (allocate key id rows).1 ≡ next_of k rows)
      × (is_started k (allocate key id rows).1 ≡ is_started k rows)
unfolding allocate next_of is_started
next_of-allocate-other key k id [] h = ground arith
next_of-allocate-other key k id (s ∷ rest) h =
    ground (arith, next_of-allocate-other key k id rest h, same_key_sound s.key key)

-- The number of a document has been assigned: it is below the next one of its sequence.
abbrev pub HasNumber : List FiscalSequence → FiscalDocument → Type 0
HasNumber rows d =
    (is_started d.fields.key rows ≡ true) × (d.fields.sequence_value < next_of d.fields.key rows)

-- Two documents of one sequence have different numbers.
abbrev pub Differ : FiscalDocument → FiscalDocument → Type 0
Differ d e = d.fields.key ≡ e.fields.key → d.fields.sequence_value ≢ e.fields.sequence_value

abbrev pub Distinct : List FiscalDocument → Type 0
Distinct [] = Unit
Distinct (d ∷ rest) = All (Differ d) rest × Distinct rest

pub record IsNumbered (store : Store) : Type 0 where
  pub assigned : All (HasNumber store.sequences) store.documents
  pub distinct : Distinct store.documents

HasNumber-allocate :
    (key : SequenceKey) (id : Text) (rows : List FiscalSequence) (d : FiscalDocument)
    → HasNumber rows d
    → HasNumber (allocate key id rows).1 d
HasNumber-allocate key id rows d h = elim (Bool-cases (same_key key d.fields.key)) [
  | inl e ↦
      let p : key ≡ d.fields.key = same_key_sound key d.fields.key e in
      let (n, s) = next_of-allocate-same d.fields.key id rows in rw (p) (s, omega (arith, n, h.1))
  | inr e ↦
      let (n, s) = next_of-allocate-other key d.fields.key id rows e in
      (s ∙ h.0, omega (arith, n, h.1))
]

-- A document that takes the number that its sequence assigns keeps the numbers apart.
pub allocate-IsNumbered :
    (before after : Store) (d : FiscalDocument) (id : Text)
    → after.sequences ≡ (allocate d.fields.key id before.sequences).1
    → d.fields.sequence_value ≡ (allocate d.fields.key id before.sequences).0
    → after.documents ≡ d ∷ before.documents
    → IsNumbered before
    → IsNumbered after
allocate-IsNumbered before after d id es en ed h =
    let value : d.fields.sequence_value ≡ next_of d.fields.key before.sequences =
      en ∙ allocate-next_of d.fields.key id before.sequences in
    let (n, s) = next_of-allocate-same d.fields.key id before.sequences in
    record {
      assigned =
          rw (es, ed)
            (
              (s, omega (arith, n, value)),
              All-map (HasNumber-allocate d.fields.key id before.sequences) before.documents
                  h.assigned,
            );
      distinct = rw ed (
        All-map
            (λ e k p q.
              let r : next_of d.fields.key before.sequences
                  ≡ next_of e.fields.key before.sequences =
                ap (λ x. next_of x before.sequences) p in
              omega (arith, k.1, value, q, r))
            before.documents h.assigned,
        h.distinct,
      );
    }

next_of-set_next_value :
    (key k : SequenceKey) (id : Text) (n : ℕ) (rows : List FiscalSequence)
    → is_started key rows ≡ false
    → is_started k rows ≡ true
    → (next_of k (set_next_value key id n rows) ≡ next_of k rows)
      × (is_started k (set_next_value key id n rows) ≡ true)
unfolding set_next_value next_of is_started
next_of-set_next_value key k id n [] h g = cc
next_of-set_next_value key k id n (s ∷ rest) h g = ground (
  arith,
  next_of-set_next_value key k id n rest,
  same_key_sound s.key key,
  same_key_sound s.key k,
)

-- A new start of a sequence that has assigned no number keeps the numbers apart.
pub set_next_value-IsNumbered :
    (before after : Store) (key : SequenceKey) (id : Text) (n : ℕ)
    → is_started key before.sequences ≡ false
    → after.sequences ≡ set_next_value key id n before.sequences
    → after.documents ≡ before.documents
    → IsNumbered before
    → IsNumbered after
set_next_value-IsNumbered before after key id n f es ed h = record {
  assigned =
      rw (es, ed)
        (All-map
          (λ d k.
            let (a, b) = next_of-set_next_value key d.fields.key id n before.sequences f k.0 in
            (b, omega (arith, a, k.1)))
          before.documents h.assigned);
  distinct = rw ed h.distinct;
}
