-- ===== src/FiscalDocument/Validation/Terms.antt =====
-- The terms of sale that validateSalePaymentTerms and validateCreateCommand let pass, written without
-- the tests of the code.
use billing_api.Common.{
  ℕ, sym, ◌∙◌, ◌≤◌, ◌≡◌, ◌↔◌, ◌≢◌, ◌⊎◌, inl, inr, refl, true, false, List, [], ◌∷◌, Memᴰ, Option,
  none, some, Text, codes, pos, negsuc, eq_text, eq_text_iff, eq_text_sound, eq_text_other,
  eq_text_sym, includes, includes-Mem, includes-without, without, All, All-Mem, ok, arith,
}
use billing_api.FiscalDocument.{
  Number, integer, fraction, nan, is_present, CreateFiscalDocumentCommand,
}
use billing_api.FiscalDocument.Validation.{
  is_credit_term, text_of, allowed_payment_methods, validate_sale_payment_terms, check_credit_terms,
  check_cash_terms, unsupported_sale_conditions, allowed_sale_conditions,
}

-- A text that is there and not empty.
abbrev pub IsGiven : Option Text → Type 0
IsGiven o = (t : Text) × (o ≡ some t) × (t ≢ [])

pub is_present-IsGiven : (o : Option Text) → is_present o ≡ true → IsGiven o
is_present-IsGiven none e = cc
is_present-IsGiven (some []) e = cc
is_present-IsGiven (some (c ∷ s)) e = (c ∷ s, refl, λ k. cc)

absent : (o : Option Text) → is_present o ≡ false → (o ≡ none) ⊎ (o ≡ some [])
absent none e = inl refl
absent (some []) e = inr refl
absent (some (c ∷ s)) e = cc

-- The payment methods of sales that are not on credit, and the conditions of sale, that are issued.
abbrev pub issued_payment_methods : List Text
issued_payment_methods = codes "01" ∷ codes "02" ∷ codes "03" ∷ codes "04" ∷ codes "05" ∷ []

abbrev pub issued_sale_conditions : List Text
issued_sale_conditions =
    codes "01"
    ∷ codes "02"
    ∷ codes "03"
    ∷ codes "04"
    ∷ codes "05"
    ∷ codes "06"
    ∷ codes "07"
    ∷ codes "08"
    ∷ codes "10"
    ∷ codes "12"
    ∷ []

-- A sale on credit has a whole number of days from 1 to 99999 and no payment method; another has no
-- days and one of the methods that are issued.
abbrev pub HasTerms : CreateFiscalDocumentCommand → Type 0
HasTerms command =
    ((command.sale_condition ≡ codes "02")
      × ((n : ℕ) × (command.credit_term_days ≡ some (integer (pos n))) × (1 ≤ n) × (n ≤ 99999))
      × ((command.payment_method ≡ none) ⊎ (command.payment_method ≡ some [])))
    ⊎ ((command.sale_condition ≢ codes "02")
        × (command.credit_term_days ≡ none)
        × ((m : Text) × (command.payment_method ≡ some m) × Memᴰ m issued_payment_methods))

credit_term :
    (o : Option Number)
    → (is_credit_term o ≡ true) ↔ ((n : ℕ) × (o ≡ some (integer (pos n))) × (1 ≤ n) × (n ≤ 99999))
credit_term o = (found o, λ (n, e, least, most). rw e (ground arith))
  where
    found :
        (o : Option Number)
        → is_credit_term o ≡ true
        → (n : ℕ) × (o ≡ some (integer (pos n))) × (1 ≤ n) × (n ≤ 99999)
    found none e = cc
    found (some (integer (pos n))) e = (n, refl, ground arith, ground arith)
    found (some (integer (negsuc n))) e = cc
    found (some (fraction z)) e = cc
    found (some nan) e = cc

without_99 : without (codes "99" ∷ []) allowed_payment_methods ≡ issued_payment_methods
unfolding includes eq_text
without_99 = refl

pub without_unsupported :
    without unsupported_sale_conditions allowed_sale_conditions ≡ issued_sale_conditions
unfolding includes eq_text
without_unsupported = refl

-- A text of a list that is not in another one is in what is left of it.
pub includes-left :
    (out ts left : List Text) (s : Text)
    → without out ts ≡ left
    → includes ts s ≡ true
    → includes out s ≡ false
    → Memᴰ s left
includes-left out ts left s e h k = includes-Mem left s (rw (← e) (includes-without out ts s h k))

method-issued :
    (m : Text)
    → includes allowed_payment_methods m ≡ true
    → eq_text m (codes "99") ≡ false
    → Memᴰ m issued_payment_methods
unfolding includes
method-issued m h k =
    includes-left (codes "99" ∷ []) allowed_payment_methods issued_payment_methods m without_99 h
      (ground (arith, eq_text_sym m (codes "99")))

-- What the guards ask of a payment method.
abbrev IsAllowed : Text → Type 0
IsAllowed m =
    (includes allowed_payment_methods m ≡ true)
    × (eq_text m (codes "99") ≡ false)
    × (is_present (some m) ≡ true)

issued-IsAllowed : All IsAllowed issued_payment_methods
unfolding includes eq_text
issued-IsAllowed = (
  (refl, refl, refl),
  ((refl, refl, refl), ((refl, refl, refl), ((refl, refl, refl), ((refl, refl, refl), tt)))),
)

-- The guards that pass.
abbrev Passes : CreateFiscalDocumentCommand → Type 0
Passes command =
    ((eq_text command.sale_condition (codes "02") ≡ true)
      × (is_credit_term command.credit_term_days ≡ true)
      × (is_present command.payment_method ≡ false))
    ⊎ ((eq_text command.sale_condition (codes "02") ≡ false)
        × (command.credit_term_days ≡ none)
        × (is_present command.payment_method ≡ true)
        × (includes allowed_payment_methods (text_of command.payment_method) ≡ true)
        × (eq_text (text_of command.payment_method) (codes "99") ≡ false))

validate_sale_payment_terms-Passes :
    (command : CreateFiscalDocumentCommand)
    → (validate_sale_payment_terms command ≡ ok tt) ↔ Passes command
unfolding validate_sale_payment_terms check_credit_terms check_cash_terms
validate_sale_payment_terms-Passes command = ground arith

method-found :
    (o : Option Text)
    → is_present o ≡ true
    → includes allowed_payment_methods (text_of o) ≡ true
    → eq_text (text_of o) (codes "99") ≡ false
    → (m : Text) × (o ≡ some m) × Memᴰ m issued_payment_methods
method-found none p h k = cc
method-found (some m) p h k = (m, refl, method-issued m h k)

Passes-HasTerms : (command : CreateFiscalDocumentCommand) → Passes command → HasTerms command
Passes-HasTerms command (inl (credit, days, method)) = inl (
  eq_text_sound command.sale_condition (codes "02") credit,
  (credit_term command.credit_term_days).0 days,
  absent command.payment_method method,
)
Passes-HasTerms command (inr (other, days, present, listed, known)) =
    inr (λ e. absurd (cash e other), days, method-found command.payment_method present listed known)
  where
    cash :
        command.sale_condition ≡ codes "02"
        → eq_text command.sale_condition (codes "02") ≡ false
        → ⊥
    cash e k =
        let h : true ≡ false = sym ((eq_text_iff command.sale_condition (codes "02")).1 e) ∙ k in cc

HasTerms-Passes : (command : CreateFiscalDocumentCommand) → HasTerms command → Passes command
HasTerms-Passes command (inl (credit, days, method)) = inl (
  (eq_text_iff command.sale_condition (codes "02")).1 credit,
  (credit_term command.credit_term_days).1 days,
  elim method [ inl e ↦ rw e refl | inr e ↦ rw e refl ],
)
HasTerms-Passes command (inr (other, days, (m, e, issued))) =
    let (listed, known, present) =
      All-Mem IsAllowed issued_payment_methods issued-IsAllowed m issued in
    inr (
      eq_text_other command.sale_condition (codes "02") other,
      days,
      rw e present,
      rw e listed,
      rw e known,
    )

-- validateSalePaymentTerms passes exactly if a credit sale ("02") has a whole number of days from 1 to
-- 99999 and no payment method, or another sale has no days and one of the methods "01" to "05".
pub validate_sale_payment_terms_iff :
    (command : CreateFiscalDocumentCommand)
    → (validate_sale_payment_terms command ≡ ok tt) ↔ HasTerms command
validate_sale_payment_terms_iff command =
    let (passes, from) = validate_sale_payment_terms-Passes command in
    (λ h. Passes-HasTerms command (passes h), λ h. from (HasTerms-Passes command h))
