-- ===== src/FiscalDocument/Validation/Accepted.antt =====
-- What a command has that validateCreateCommand lets pass.
use billing_api.Common.{
  ℕ, zero, suc, sym, ◌*◌, ◌/◌, ◌∙◌, ◌+◌, ◌≤◌, ◌≡◌, ◌≢◌, ◌⊎◌, inl, inr, refl, ap, true, false, not,
  ◌&&◌, List, [], ◌∷◌, Memᴰ, Option, Text, codes, ℤ, pos, negsuc, eq_text, eq_text_sound, includes,
  includes-Mem, is_digits, All, Result, ok, err, >>=-ok, ◌-ℤ◌, Bool-cases, arith,
}
use mathlib.Core.List.Memᴰ
use billing_api.Money.{multiply, subtract, is_negative, is_zero, factor}
use billing_api.Money.Rounding.{multiply_pos}
use billing_api.FiscalDocument.{
  ServiceError, is_present, FiscalDocumentLineInput, CreateFiscalDocumentCommand,
}
use billing_api.FiscalDocument.Validation.{
  amount, or_zero, validate_sale_payment_terms, settle_discount, check_discount_amount,
  validate_line_discount, validate_line, validate_lines, validate_receiver,
  validate_fiscal_payload_equivalence, validate_create_command, unsupported_sale_conditions,
  allowed_sale_conditions, allowed_currency_codes,
}
use billing_api.FiscalDocument.Validation.Terms.{
  IsGiven, is_present-IsGiven, issued_sale_conditions, HasTerms, without_unsupported, includes-left,
  validate_sale_payment_terms_iff,
}

-- An amount that is read and not negative.
abbrev pub IsAmount : Text → ℕ → Type 0
IsAmount t n = amount t ≡ ok (pos n)

-- A line with readable amounts, of which the discount is at most the gross amount.
pub record IsAccepted (line : FiscalDocumentLineInput) : Type 0 where
  pub cabys : is_digits 13 line.cabys_code ≡ true
  pub quantity : ℕ
  pub price : ℕ
  pub discount : ℕ
  pub gross : ℕ
  pub tax : ℤ
  pub quantity_lem : IsAmount line.quantity quantity
  pub price_lem : IsAmount line.unit_price price
  pub discount_lem : IsAmount (or_zero line.discount_amount) discount
  pub tax_lem : amount (or_zero line.tax_amount) ≡ ok tax
  pub gross_lem : multiply (pos quantity) (pos price) ≡ pos gross
  pub covered : discount ≤ gross

is_negative-false : (a : ℤ) → is_negative a ≡ false → (n : ℕ) × (a ≡ pos n)
unfolding is_negative
is_negative-false (pos n) h = (n, refl)
is_negative-false (negsuc n) h = cc

-- A result that a guard needs: it is there, and not negative.
amount-found :
    (r : Result ServiceError ℤ)
    → ((e : ServiceError) → r ≢ err e)
    → ((a : ℤ) → r ≡ ok a → is_negative a ≡ false)
    → (n : ℕ) × (r ≡ ok (pos n))
unfolding is_negative
amount-found (err e) f g = absurd (f e refl)
amount-found (ok (pos n)) f g = (n, refl)
amount-found (ok (negsuc n)) f g = let h : true ≡ false = g (negsuc n) refl in cc

result-found : (r : Result ServiceError ℤ) → ((e : ServiceError) → r ≢ err e) → (a : ℤ) × (r ≡ ok a)
result-found (err e) f = absurd (f e refl)
result-found (ok a) f = (a, refl)

is_negative-negsuc : (n : ℕ) → is_negative (negsuc n) ≢ false
unfolding is_negative
is_negative-negsuc n h = cc

subtract-covered : (g d : ℕ) → is_negative (subtract (pos g) (pos d)) ≡ false → d ≤ g
unfolding is_negative subtract ◌-ℤ◌
subtract-covered g d h = ground arith

settle_discount-suc :
    (line : FiscalDocumentLineInput) (n : ℕ)
    → settle_discount line (pos (suc n)) ≡ check_discount_amount line (pos (suc n))
unfolding settle_discount is_zero
settle_discount-suc line n = ground arith

-- A discount of a line that is not zero is not negative, nor more than the gross amount.
check_discount_amount-signs :
    (line : FiscalDocumentLineInput) (d q p : ℤ)
    → amount line.quantity ≡ ok q
    → amount line.unit_price ≡ ok p
    → check_discount_amount line d ≡ ok tt
    → (is_negative d ≡ false) × (is_negative (subtract (multiply q p) d) ≡ false)
unfolding check_discount_amount
check_discount_amount-signs line d q p hq hp h = ground arith

settle_discount-covered :
    (line : FiscalDocumentLineInput) (d : ℤ) (q p g : ℕ)
    → IsAmount line.quantity q
    → IsAmount line.unit_price p
    → multiply (pos q) (pos p) ≡ pos g
    → settle_discount line d ≡ ok tt
    → (n : ℕ) × (d ≡ pos n) × (n ≤ g)
unfolding settle_discount is_zero
settle_discount-covered line (pos zero) q p g hq hp hg h = (0, refl, omega arith)
settle_discount-covered line (pos (suc n)) q p g hq hp hg h =
    let (_, k) =
      check_discount_amount-signs line (pos (suc n)) (pos q) (pos p) hq hp
        (rw (sym (settle_discount-suc line n)) h) in
    (suc n, refl, subtract-covered g (suc n) (rw (sym hg) k))
settle_discount-covered line (negsuc n) q p g hq hp hg h =
    let (k, _) = check_discount_amount-signs line (negsuc n) (pos q) (pos p) hq hp h in
    absurd (is_negative-negsuc n k)

quantity-found :
    (line : FiscalDocumentLineInput)
    → validate_line line ≡ ok tt
    → (n : ℕ) × IsAmount line.quantity n
unfolding validate_line
quantity-found line h =
    amount-found (amount line.quantity) (λ e k. ground arith) (λ a k. ground arith)

price-found :
    (line : FiscalDocumentLineInput)
    → validate_line line ≡ ok tt
    → (n : ℕ) × IsAmount line.unit_price n
unfolding validate_line
price-found line h =
    amount-found (amount line.unit_price) (λ e k. ground arith) (λ a k. ground arith)

cabys-found :
    (line : FiscalDocumentLineInput)
    → validate_line line ≡ ok tt
    → is_digits 13 line.cabys_code ≡ true
unfolding validate_line
cabys-found line h = ground arith

discount-ok :
    (line : FiscalDocumentLineInput)
    → validate_line line ≡ ok tt
    → validate_line_discount line ≡ ok tt
unfolding validate_line
discount-ok line h = ground arith

tax-found :
    (line : FiscalDocumentLineInput)
    → validate_line line ≡ ok tt
    → (t : ℤ) × (amount (or_zero line.tax_amount) ≡ ok t)
unfolding validate_line
tax-found line h = result-found (amount (or_zero line.tax_amount)) (λ e k. ground arith)

discount-found :
    (line : FiscalDocumentLineInput)
    → validate_line_discount line ≡ ok tt
    → (d : ℤ) × (amount (or_zero line.discount_amount) ≡ ok d) × (settle_discount line d ≡ ok tt)
unfolding validate_line_discount
discount-found line h = >>=-ok (amount (or_zero line.discount_amount)) (settle_discount line) h

-- A line that passes has a CABYS code of 13 digits, readable amounts, a quantity and a price that
-- are not negative, and a discount between zero and the rounded gross amount.
validate_line-IsAccepted :
    (line : FiscalDocumentLineInput) → validate_line line ≡ ok tt → IsAccepted line
validate_line-IsAccepted line h =
    let (q, hq) = quantity-found line h in
    let (p, hp) = price-found line h in
    let (t, ht) = tax-found line h in
    let (d, hd, k) = discount-found line (discount-ok line h) in
    let hg = multiply_pos q p in
    let (n, e, covered) =
      settle_discount-covered line d q p ((q * p + 50000) / factor) hq hp hg k in
    record {
      cabys = cabys-found line h;
      quantity = q;
      price = p;
      discount = n;
      gross = (q * p + 50000) / factor;
      tax = t;
      quantity_lem = hq;
      price_lem = hp;
      discount_lem = hd ∙ ap ok e;
      tax_lem = ht;
      gross_lem = hg;
      covered = covered;
    }

validate_lines-All :
    (lines : List FiscalDocumentLineInput) → validate_lines lines ≡ ok tt → All IsAccepted lines
unfolding validate_lines
validate_lines-All [] h = tt
validate_lines-All (line ∷ lines) h =
    let (_, k, h') = >>=-ok (validate_line line) (λ _. validate_lines lines) h in
    (validate_line-IsAccepted line k, validate_lines-All lines h')

known_currency :
    (currency : Text) (rate : Option Text)
    → includes allowed_currency_codes currency ≡ true
    → (not (eq_text currency (codes "CRC")) && not (is_present rate)) ≡ false
    → (currency ≡ codes "CRC") ⊎ ((currency ≡ codes "USD") × IsGiven rate)
known_currency currency rate h k =
    elim (Memᴰ.cases_cons (includes-Mem allowed_currency_codes currency h)) [
      | inl colones ↦ inl colones
      | inr further ↦ elim (Bool-cases (eq_text currency (codes "CRC"))) [
        | inl colones ↦ inl (eq_text_sound currency (codes "CRC") colones)
        | inr other ↦ inr (Memᴰ.eq_of_singleton further, is_present-IsGiven rate (ground arith))
      ]
    ]

-- A command that passes.
pub record Sound (command : CreateFiscalDocumentCommand) : Type 0 where
  pub api_key : IsGiven command.api_key_id
  pub idempotency : IsGiven command.idempotency_key
  pub currency :
      (command.currency ≡ codes "CRC")
      ⊎ ((command.currency ≡ codes "USD") × IsGiven command.exchange_rate)
  pub condition : Memᴰ command.sale_condition issued_sale_conditions
  pub terms : HasTerms command
  pub nonempty : command.lines ≢ []
  pub lines : All IsAccepted command.lines

module _ (upper : Text → Text)
    (payload_hash : CreateFiscalDocumentCommand → Result ServiceError Text)
    (command : CreateFiscalDocumentCommand)
    (h : validate_create_command upper payload_hash command ≡ ok tt) where
  terms-ok : validate_sale_payment_terms command ≡ ok tt
  unfolding validate_create_command
  terms-ok = ground arith

  lines-ok : validate_lines command.lines ≡ ok tt
  unfolding validate_create_command
  lines-ok = ground arith

  currency-ok : includes allowed_currency_codes command.currency ≡ true
  unfolding validate_create_command
  currency-ok = ground arith

  rate-ok :
      (not (eq_text command.currency (codes "CRC")) && not (is_present command.exchange_rate))
      ≡ false
  unfolding validate_create_command
  rate-ok = ground arith

  pub receiver-ok : validate_receiver upper command ≡ ok tt
  unfolding validate_create_command
  receiver-ok = ground arith

  pub evidence-ok : validate_fiscal_payload_equivalence payload_hash command ≡ ok tt
  unfolding validate_create_command
  evidence-ok = ground arith

  -- A command that passes validateCreateCommand has an API key and an idempotency key, the currency
  -- CRC, or USD with an exchange rate, a condition of sale among "01" to "08", "10" and "12" with its
  -- payment terms, and at least one line; each line has a CABYS code of 13 digits, amounts that can be
  -- read, a quantity and a price that are not negative, and a discount between zero and the gross
  -- amount.
  pub validate_create_command-Sound : Sound command
  unfolding validate_create_command
  validate_create_command-Sound = record {
    api_key = is_present-IsGiven command.api_key_id (ground arith);
    idempotency = is_present-IsGiven command.idempotency_key (ground arith);
    currency = known_currency command.currency command.exchange_rate currency-ok rate-ok;
    condition =
        includes-left unsupported_sale_conditions allowed_sale_conditions issued_sale_conditions
          command.sale_condition without_unsupported (ground arith) (ground arith);
    terms = (validate_sale_payment_terms_iff command).0 terms-ok;
    nonempty = λ e. ground arith;
    lines = validate_lines-All command.lines lines-ok;
  }
