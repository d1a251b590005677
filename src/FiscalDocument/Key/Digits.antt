-- ===== src/FiscalDocument/Key/Digits.antt =====
-- The shape of consecutive numbers and keys, and that they determine what they were built from.
use billing_api.Common.{
  ℕ, suc, ◌+◌, ◌%◌, ◌^◌, ◌≤◌, ◌<◌, true, [], ◌∷◌, ◌++◌, Text, ◌≡◌, refl, sym, ap, ◌∙◌, arith,
  length, length-append, all_digits, all_digits-append, is_digits, is_digits_up_to, trim, pad_start,
  to_decimal, to_decimal_digits, length-to_decimal, length-pad_start, all_digits-pad_start, big_int,
  big_int-pad_start, big_int-to_decimal, or_else, Bool-cases, inl, inr, ok, >>=-ok,
}
use billing_api.FiscalDocument.{FiscalDocumentType, invoice, ticket}
use billing_api.FiscalDocument.Key.{
  fiscal_document_code, fiscal_country_code, normalize_issuer_identification_for_clave,
  ConsecutiveInput, build_consecutive, LocalDate, IsLocalDate, FiscalKeyInput, build_fiscal_key,
  fiscal_normal_situation,
}

-- A text of `n` digits, as a pair of facts.
IsDigits-of : (n : ℕ) (s : Text) → is_digits n s ≡ true → (length s ≡ n) × (all_digits s ≡ true)
unfolding is_digits
IsDigits-of n s h = ground arith

is_digits-of : (n : ℕ) (s : Text) → length s ≡ n → all_digits s ≡ true → is_digits n s ≡ true
unfolding is_digits
is_digits-of n s l d = ground arith

pub is_digits-append :
    (m n : ℕ) (s t : Text)
    → is_digits m s ≡ true
    → is_digits n t ≡ true
    → is_digits (m + n) (s ++ t) ≡ true
is_digits-append m n s t h k =
    let (l, d) = IsDigits-of m s h in
    let (l', d') = IsDigits-of n t k in
    is_digits-of (m + n) (s ++ t) (omega (arith, length-append {0} s t))
      (all_digits-append s t d d')

-- A number below a power of ten, padded to that many digits.
pub is_digits-pad :
    (k n : ℕ) → n < 10 ^ suc k → is_digits (suc k) (pad_start (suc k) (to_decimal n)) ≡ true
is_digits-pad k n h =
    is_digits-of (suc k) (pad_start (suc k) (to_decimal n))
      (length-pad_start (suc k) (to_decimal n) (length-to_decimal k n h))
      (all_digits-pad_start (suc k) (to_decimal n) (to_decimal_digits n))

is_digits-document_code : (t : FiscalDocumentType) → is_digits 2 (fiscal_document_code t) ≡ true
unfolding is_digits
is_digits-document_code invoice = refl
is_digits-document_code ticket = refl

-- The guards of `build_consecutive`, and its result.
consecutive_parts :
    (input : ConsecutiveInput) {c : Text}
    → build_consecutive input ≡ ok c
    → (is_digits 3 input.branch_code ≡ true)
      × (is_digits 5 input.terminal_code ≡ true)
      × (1 ≤ input.sequence_value)
      × (input.sequence_value ≤ 9999999999)
      × (input.branch_code
            ++ (input.terminal_code
                ++ (fiscal_document_code input.document_type
                    ++ pad_start 10 (to_decimal input.sequence_value)))
          ≡ c)
unfolding build_consecutive
consecutive_parts input h = ground arith

append_injective :
    (s s' t t' : Text) → length s ≡ length s' → s ++ t ≡ s' ++ t' → (s ≡ s') × (t ≡ t')
append_injective [] [] t t' l h = (refl, h)
append_injective [] (_ ∷ _) t t' l h = absurd (omega arith)
append_injective (_ ∷ _) [] t t' l h = absurd (omega arith)
append_injective (c ∷ s) (d ∷ s') t t' l h =
    let (p, q) = append_injective s s' t t' (omega arith) (cc) in (ground arith, q)

-- Texts that begin with as many digits agree part by part.
digits_split :
    (n : ℕ) (s s' t t' : Text)
    → is_digits n s ≡ true
    → is_digits n s' ≡ true
    → s ++ t ≡ s' ++ t'
    → (s ≡ s') × (t ≡ t')
digits_split n s s' t t' h k =
    append_injective s s' t t' ((IsDigits-of n s h).0 ∙ sym (IsDigits-of n s' k).0)

pad_injective : (k m n : ℕ) → pad_start k (to_decimal m) ≡ pad_start k (to_decimal n) → m ≡ n
pad_injective k m n h =
    sym (big_int-to_decimal m)
    ∙ sym (big_int-pad_start k (to_decimal m))
    ∙ ap big_int h
    ∙ big_int-pad_start k (to_decimal n)
    ∙ big_int-to_decimal n

document_code_injective :
    (s t : FiscalDocumentType) → fiscal_document_code s ≡ fiscal_document_code t → s ≡ t
unfolding big_int
document_code_injective invoice invoice h = refl
document_code_injective invoice ticket h =
    let e : ◌≡◌ {A = ℕ} 1 4 = ap big_int h in absurd (omega arith)
document_code_injective ticket invoice h =
    let e : ◌≡◌ {A = ℕ} 4 1 = ap big_int h in absurd (omega arith)
document_code_injective ticket ticket h = refl

-- A consecutive number that is built has 20 digits, as the key asks for.
build_consecutive-is_digits :
    (input : ConsecutiveInput) (c : Text) → build_consecutive input ≡ ok c → is_digits 20 c ≡ true
build_consecutive-is_digits input c h =
    let (b, t, _, top, e) = consecutive_parts input h in
    rw (← e) (
      is_digits-append 3 17 input.branch_code _ b (
        is_digits-append 5 12 input.terminal_code _ t (
          is_digits-append 2 10 (fiscal_document_code input.document_type) _
            (is_digits-document_code input.document_type)
            (is_digits-pad 9 input.sequence_value (omega arith)))))

-- Two consecutive numbers that are equal were built from the same branch, terminal, document type
-- and sequence value: no two allocations share one.
pub build_consecutive_injective :
    (i j : ConsecutiveInput) (c : Text)
    → build_consecutive i ≡ ok c
    → build_consecutive j ≡ ok c
    → i ≡ j
build_consecutive_injective i j c h k =
    let (b, t, _, _, e) = consecutive_parts i h in
    let (b', t', _, _, e') = consecutive_parts j k in
    let (p, rest) = digits_split 3 i.branch_code j.branch_code _ _ b b' (e ∙ sym e') in
    let (q, rest') = digits_split 5 i.terminal_code j.terminal_code _ _ t t' rest in
    let (r, s) =
      digits_split 2 (fiscal_document_code i.document_type) (fiscal_document_code j.document_type) _
        _ (is_digits-document_code i.document_type) (is_digits-document_code j.document_type)
        rest' in
    let d = document_code_injective i.document_type j.document_type r in
    let n = pad_injective 10 i.sequence_value j.sequence_value s in
    λ x. record {
      branch_code = p x;
      terminal_code = q x;
      document_type = d x;
      sequence_value = n x;
    }

up_to_bounds : (s : Text) → is_digits_up_to 12 s ≡ true → (length s ≤ 12) × (all_digits s ≡ true)
unfolding is_digits_up_to
up_to_bounds s h = ground arith

-- The issuer's number in a key has 12 digits.
issuer_digits :
    (value : Text) {issuer : Text}
    → normalize_issuer_identification_for_clave value ≡ ok issuer
    → is_digits 12 issuer ≡ true
unfolding normalize_issuer_identification_for_clave
issuer_digits value {issuer} h = elim (Bool-cases (is_digits_up_to 12 (trim value))) [
  | inl good ↦
      let (l, d) = up_to_bounds (trim value) good in
      let e : pad_start 12 (trim value) ≡ issuer = ground arith in
      rw (← e) (
        is_digits-of 12 _ (length-pad_start 12 (trim value) l)
          (all_digits-pad_start 12 (trim value) d))
  | inr bad ↦ ground arith
]

key_parts :
    (input : FiscalKeyInput) {k : Text}
    → build_fiscal_key input ≡ ok k
    → (issuer : Text) × (normalize_issuer_identification_for_clave
          input.issuer_identification_number
        ≡ ok issuer)
      × (is_digits 20 input.consecutive ≡ true)
      × (is_digits 8 input.security_code ≡ true)
      × (is_digits 1 (or_else input.situation fiscal_normal_situation) ≡ true)
      × (fiscal_country_code
            ++ (pad_start 2 (to_decimal input.issued_at.date)
                ++ (pad_start 2 (to_decimal (input.issued_at.month + 1))
                    ++ (pad_start 2 (to_decimal (input.issued_at.full_year % 100))
                        ++ (issuer
                            ++ (input.consecutive
                                ++ (or_else input.situation fiscal_normal_situation
                                    ++ input.security_code))))))
          ≡ k)
unfolding build_fiscal_key
key_parts input h =
    let (issuer, i, rest) =
      >>=-ok (normalize_issuer_identification_for_clave input.issuer_identification_number) _ h in
    (issuer, i, ground arith, ground arith, ground arith, ground arith)

is_digits-country_code : is_digits 3 fiscal_country_code ≡ true
unfolding is_digits
is_digits-country_code = refl

-- The two digits of the day, the month and the year of a key.
day_text : LocalDate → Text
day_text d = pad_start 2 (to_decimal d.date)

month_text : LocalDate → Text
month_text d = pad_start 2 (to_decimal (d.month + 1))

year_text : LocalDate → Text
year_text d = pad_start 2 (to_decimal (d.full_year % 100))

date_digits :
    (d : LocalDate)
    → IsLocalDate d
    → (is_digits 2 (day_text d) ≡ true)
      × (is_digits 2 (month_text d) ≡ true)
      × (is_digits 2 (year_text d) ≡ true)
unfolding day_text month_text year_text
date_digits d (low, high, months) = (
  is_digits-pad 1 d.date (omega arith),
  is_digits-pad 1 (d.month + 1) (omega arith),
  is_digits-pad 1 (d.full_year % 100) (omega arith),
)

-- A key that is built has 50 digits.
build_fiscal_key-is_digits :
    (input : FiscalKeyInput) (k : Text)
    → IsLocalDate input.issued_at
    → build_fiscal_key input ≡ ok k
    → is_digits 50 k ≡ true
unfolding day_text month_text year_text
build_fiscal_key-is_digits input k v h =
    let (issuer, i, c, s, t, e) = key_parts input h in
    let (d, m, y) = date_digits input.issued_at v in
    rw (← e) (
      is_digits-append 3 47 fiscal_country_code _ is_digits-country_code (
        is_digits-append 2 45 _ _ d (
          is_digits-append 2 43 _ _ m (
            is_digits-append 2 41 _ _ y (
              is_digits-append 12 29 issuer _ (issuer_digits input.issuer_identification_number i) (
                is_digits-append 20 9 input.consecutive _ c
                  (is_digits-append 1 8 _ input.security_code t s)))))))

-- Two keys of valid dates that are equal hold the same consecutive number and security code.
pub build_fiscal_key_consecutive :
    (i j : FiscalKeyInput) (k : Text)
    → IsLocalDate i.issued_at
    → IsLocalDate j.issued_at
    → build_fiscal_key i ≡ ok k
    → build_fiscal_key j ≡ ok k
    → (i.consecutive ≡ j.consecutive) × (i.security_code ≡ j.security_code)
unfolding day_text month_text year_text
build_fiscal_key_consecutive i j k v w h g =
    let (issuer, n, c, _, t, e) = key_parts i h in
    let (issuer', n', c', _, t', e') = key_parts j g in
    let (d, m, y) = date_digits i.issued_at v in
    let (d', m', y') = date_digits j.issued_at w in
    let (_, r₁) =
      digits_split 3 fiscal_country_code fiscal_country_code _ _ is_digits-country_code
        is_digits-country_code (e ∙ sym e') in
    let (_, r₂) = digits_split 2 _ _ _ _ d d' r₁ in
    let (_, r₃) = digits_split 2 _ _ _ _ m m' r₂ in
    let (_, r₄) = digits_split 2 _ _ _ _ y y' r₃ in
    let (_, r₅) =
      digits_split 12 issuer issuer' _ _ (issuer_digits i.issuer_identification_number n)
        (issuer_digits j.issuer_identification_number n') r₄ in
    let (same, r₆) = digits_split 20 i.consecutive j.consecutive _ _ c c' r₅ in
    (same, (digits_split 1 _ _ i.security_code j.security_code t t' r₆).1)
