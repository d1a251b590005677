-- ===== src/FiscalDocument/Totals.antt =====
-- application/fiscal-document.service.ts, calculateTotals: the totals are texts, read and printed
-- again in every round of the reduce. The section at the end has the sums that they stand for.
pub mod Bounds
use billing_api.Common.{
  ◌+◌, ◌≡◌, refl, List, [], ◌∷◌, Text, codes, ℤ, pos, sym, ◌+ℤ◌, ◌-ℤ◌, int_laws, Result, ok, err,
  ◌>>=◌,
}
use billing_api.Money.{ScaledDecimal, add, subtract, multiply, to_text}
use billing_api.FiscalDocument.{ServiceError, FiscalDocumentLineInput}
use billing_api.FiscalDocument.Validation.{amount, or_zero, amount-to_text}

pub record Totals : Type 0 where
  pub gross_amount : Text
  pub discount_amount : Text
  pub tax_amount : Text
  pub total_amount : Text

abbrev pub zero_totals : Totals
zero_totals = record {
  gross_amount = codes "0.00000";
  discount_amount = codes "0.00000";
  tax_amount = codes "0.00000";
  total_amount = codes "0.00000";
}

-- What the callback of the reduce reads from a line, in its order.
pub record Amounts : Type 0 where
  pub gross : ScaledDecimal
  pub discount : ScaledDecimal
  pub tax : ScaledDecimal

unfoldable pub line_amounts : FiscalDocumentLineInput → Result ServiceError Amounts
line_amounts line = do
  quantity ← amount line.quantity
  unit_price ← amount line.unit_price
  discount ← amount (or_zero line.discount_amount)
  tax ← amount (or_zero line.tax_amount)
  ok (record { gross = multiply quantity unit_price; discount = discount; tax = tax })

-- The object that the callback returns.
unfoldable pub add_to : Totals → Amounts → Result ServiceError Totals
add_to totals line = do
  let net = subtract line.gross line.discount
  gross_amount ← amount totals.gross_amount
  discount_amount ← amount totals.discount_amount
  tax_amount ← amount totals.tax_amount
  total_amount ← amount totals.total_amount
  ok (record {
    gross_amount = to_text (add gross_amount line.gross);
    discount_amount = to_text (add discount_amount line.discount);
    tax_amount = to_text (add tax_amount line.tax);
    total_amount = to_text (add (add total_amount net) line.tax);
  })

unfoldable pub add_line : Totals → FiscalDocumentLineInput → Result ServiceError Totals
add_line totals line = line_amounts line >>= add_to totals

unfoldable pub reduce_lines : List FiscalDocumentLineInput → Totals → Result ServiceError Totals
reduce_lines [] totals = ok totals
reduce_lines (line ∷ lines) totals = add_line totals line >>= reduce_lines lines

unfoldable pub calculate_totals : List FiscalDocumentLineInput → Result ServiceError Totals
calculate_totals lines = reduce_lines lines zero_totals

abbrev pub add_amounts : Amounts → Amounts → Amounts
add_amounts a b = record {
  gross = a.gross +ℤ b.gross;
  discount = a.discount +ℤ b.discount;
  tax = a.tax +ℤ b.tax;
}

-- The sums of all lines on top of `a`.
unfoldable pub sum_lines : List FiscalDocumentLineInput → Amounts → Result ServiceError Amounts
sum_lines [] a = ok a
sum_lines (line ∷ lines) a = line_amounts line >>= λ b. sum_lines lines (add_amounts a b)

abbrev pub no_amounts : Amounts
no_amounts = record { gross = pos 0; discount = pos 0; tax = pos 0 }

-- The four texts of a sum. The total is derived from the other three.
abbrev pub print : Amounts → Totals
print a = record {
  gross_amount = to_text a.gross;
  discount_amount = to_text a.discount;
  tax_amount = to_text a.tax;
  total_amount = to_text (a.gross -ℤ a.discount +ℤ a.tax);
}

total_step : (g d t h e u : ℤ) → g -ℤ d +ℤ t +ℤ (h -ℤ e) +ℤ u ≡ (g +ℤ h) -ℤ (d +ℤ e) +ℤ (t +ℤ u)
total_step g d t h e u = grind int_laws

add_to-print : (a b : Amounts) → add_to (print a) b ≡ ok (print (add_amounts a b))
unfolding add_to add subtract
add_to-print a b =
    rw (amount-to_text a.gross, amount-to_text a.discount, amount-to_text a.tax)
      (rw (amount-to_text (a.gross -ℤ a.discount +ℤ a.tax))
        (rw (total_step a.gross a.discount a.tax b.gross b.discount b.tax) refl))

reduce_lines-step :
    (lines : List FiscalDocumentLineInput) (a : Amounts)
    → ((b : Amounts) → reduce_lines lines (print b) ≡ (sum_lines lines b >>= λ c. ok (print c)))
    → (r : Result ServiceError Amounts)
    → (r >>= add_to (print a) >>= reduce_lines lines)
      ≡ ((r >>= λ b. sum_lines lines (add_amounts a b)) >>= λ c. ok (print c))
reduce_lines-step lines a rest (err e) = refl
reduce_lines-step lines a rest (ok b) = rw (add_to-print a b) (rest (add_amounts a b))

reduce_lines-print :
    (lines : List FiscalDocumentLineInput) (a : Amounts)
    → reduce_lines lines (print a) ≡ (sum_lines lines a >>= λ b. ok (print b))
unfolding reduce_lines sum_lines add_line
reduce_lines-print [] a = refl
reduce_lines-print (line ∷ lines) a =
    reduce_lines-step lines a (reduce_lines-print lines) (line_amounts line)

zero_totals-print : print no_amounts ≡ zero_totals
unfolding to_text ◌+ℤ◌ ◌-ℤ◌
zero_totals-print = refl

-- The texts that calculateTotals goes through lose nothing: it fails as the sums do, and else it
-- gives the texts of the sums of the lines, with the total gross - discount + tax.
pub calculate_totals-sums :
    (lines : List FiscalDocumentLineInput)
    → calculate_totals lines ≡ (sum_lines lines no_amounts >>= λ b. ok (print b))
unfolding calculate_totals
calculate_totals-sums lines = rw (sym zero_totals-print) (reduce_lines-print lines no_amounts)
