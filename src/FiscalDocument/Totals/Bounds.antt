-- ===== src/FiscalDocument/Totals/Bounds.antt =====
-- The totals of a command that validateCreateCommand lets pass, as createDocument computes them.
use billing_api.Common.{
  ℕ, ◌+◌, ◌≤◌, ◌≡◌, refl, ◌∙◌, ap, List, [], ◌∷◌, Text, ℤ, pos, ◌+ℤ◌, ◌>>=◌, All, Result, ok, arith,
}
use billing_api.Money.{multiply}
use billing_api.FiscalDocument.{ServiceError, FiscalDocumentLineInput, CreateFiscalDocumentCommand}
use billing_api.FiscalDocument.Validation.{validate_create_command}
use billing_api.FiscalDocument.Validation.Accepted.{IsAccepted, validate_create_command-Sound}
use billing_api.FiscalDocument.Totals.{
  Amounts, line_amounts, add_amounts, sum_lines, no_amounts, print, calculate_totals,
  calculate_totals-sums,
}

-- Sums whose discount lies between zero and the gross amount.
abbrev pub IsCovered : Amounts → Type 0
IsCovered a = (g : ℕ) × (d : ℕ) × (a.gross ≡ pos g) × (a.discount ≡ pos d) × (d ≤ g)

pos_sum : (a b : ℤ) (m n : ℕ) → a ≡ pos m → b ≡ pos n → a +ℤ b ≡ pos (m + n)
unfolding ◌+ℤ◌
pos_sum a b m n h k = ground arith

line_amounts-IsCovered :
    (line : FiscalDocumentLineInput)
    → IsAccepted line
    → (a : Amounts) × (line_amounts line ≡ ok a) × IsCovered a
unfolding line_amounts
line_amounts-IsCovered line h = (
  record {
    gross = multiply (pos h.quantity) (pos h.price);
    discount = pos h.discount;
    tax = h.tax;
  },
  rw (h.quantity_lem, h.price_lem) (rw (h.discount_lem, h.tax_lem) refl),
  (h.gross, h.discount, h.gross_lem, refl, h.covered),
)

sum_lines-IsCovered :
    (lines : List FiscalDocumentLineInput) (a : Amounts)
    → All IsAccepted lines
    → IsCovered a
    → (b : Amounts) × (sum_lines lines a ≡ ok b) × IsCovered b
unfolding sum_lines
sum_lines-IsCovered [] a _ c = (a, refl, c)
sum_lines-IsCovered (line ∷ lines) a (h, hs) (g, d, eg, ed, le) =
    let (x, ex, (g', d', eg', ed', le')) = line_amounts-IsCovered line h in
    let (b, eb, c) = sum_lines-IsCovered lines (add_amounts a x) hs (
      g + g',
      d + d',
      pos_sum a.gross x.gross g g' eg eg',
      pos_sum a.discount x.discount d d' ed ed',
      omega arith,
    ) in
    (b, rw ex eb, c)

-- A command that passes the validation has totals: calculateTotals does not throw, its texts are
-- those of sums in which the discount is not negative and at most the gross amount, and the total
-- is gross - discount + tax.
pub calculate_totals-IsCovered :
    (upper : Text → Text) (payload_hash : CreateFiscalDocumentCommand → Result ServiceError Text)
    (command : CreateFiscalDocumentCommand)
    → validate_create_command upper payload_hash command ≡ ok tt
    → (a : Amounts) × (calculate_totals command.lines ≡ ok (print a)) × IsCovered a
calculate_totals-IsCovered upper payload_hash command h =
    let s = validate_create_command-Sound upper payload_hash command h in
    let (a, e, c) =
      sum_lines-IsCovered command.lines no_amounts s.lines (0, 0, refl, refl, omega arith) in
    (a, calculate_totals-sums command.lines ∙ ap (λ r. r >>= λ b. ok (print b)) e, c)
