-- ===== src/Money.antt =====
-- src/modules/fiscal-documents/domain/scaled-decimal.ts: amounts with five decimals. The private
-- field `units` is the value itself, an integer of `bigint`; an `Error` that is thrown is `none`.
pub mod RoundTrip
pub mod Rounding
mod Tests
use billing_api.Common.{
  ℕ, zero, suc, ◌+◌, ◌*◌, ◌/◌, ◌%◌, Bool, true, false, ◌&&◌, List, [], ◌∷◌, ◌++◌, Option, none,
  some, Text, ℤ, pos, negsuc, pos_part, neg_part, sub_ℕ, ◌+ℤ◌, ◌-ℤ◌, ◌*ℤ◌, div_ℤ, is_neg, length,
  leb, ◌==◌, if◌then◌else◌, is_digit, all_digits, split, big_int, to_decimal, pad_start, pad_end,
}

abbrev pub ScaledDecimal : Type 0
ScaledDecimal = ℤ

abbrev pub scale : ℕ
scale = 5

abbrev pub factor : ℕ
factor = 100000

-- The part of `/^-?\d+(\.\d{1,5})?$/` after the sign; `seen` says that a digit was read.
decimal_tail : Bool → Text → Bool
unfolding all_digits
decimal_tail seen [] = seen
decimal_tail seen (c ∷ s) =
    let fraction = seen && c == b'.' && leb 1 (length s) && leb (length s) scale && all_digits s in
    if is_digit c then decimal_tail true s else fraction

-- The regular expression.
unfoldable pub is_decimal : Text → Bool
unfolding decimal_tail
is_decimal [] = false
is_decimal (c ∷ s) = if c == b'-' then decimal_tail false s else decimal_tail false (c ∷ s)

-- `whole.startsWith('-')` and `whole.replace('-', '')`.
unfoldable pub starts_with_minus : Text → Bool
starts_with_minus [] = false
starts_with_minus (c ∷ s) = c == b'-'

unfoldable pub remove_minus : Text → Text
remove_minus [] = []
remove_minus (c ∷ s) = if c == b'-' then s else c ∷ remove_minus s

-- `sign * n`
abbrev pub signed : Bool → ℕ → ℤ
signed minus n = if minus then sub_ℕ 0 n else pos n

from_parts : Text → Text → ScaledDecimal
unfolding starts_with_minus remove_minus pad_end big_int
from_parts whole fractional =
    signed (starts_with_minus whole)
      (big_int (remove_minus whole) * factor + big_int (pad_end scale fractional))

-- `const [whole, fractional = ''] = value.split('.')`
from_split : List Text → ScaledDecimal
unfolding from_parts
from_split [] = from_parts [] []
from_split (whole ∷ []) = from_parts whole []
from_split (whole ∷ fractional ∷ _) = from_parts whole fractional

unfoldable pub from : Text → Option ScaledDecimal
unfolding is_decimal split from_split
from value = if is_decimal value then some (from_split (split b'.' value)) else none

unfoldable pub add : ScaledDecimal → ScaledDecimal → ScaledDecimal
unfolding ◌+ℤ◌
add a b = a +ℤ b

unfoldable pub subtract : ScaledDecimal → ScaledDecimal → ScaledDecimal
unfolding ◌-ℤ◌
subtract a b = a -ℤ b

unfoldable pub multiply : ScaledDecimal → ScaledDecimal → ScaledDecimal
unfolding ◌+ℤ◌ ◌*ℤ◌ div_ℤ
multiply a b = div_ℤ (a *ℤ b +ℤ pos (factor / 2)) factor

unfoldable pub is_negative : ScaledDecimal → Bool
is_negative a = is_neg a

unfoldable pub is_zero : ScaledDecimal → Bool
is_zero (pos n) = n == 0
is_zero (negsuc n) = false

-- `absolute`
abbrev pub absolute : ℤ → ℕ
absolute a = pos_part a + neg_part a

digits_text : ℕ → Text
unfolding to_decimal pad_start
digits_text n = to_decimal (n / factor) ++ b'.' ∷ pad_start scale (to_decimal (n % factor))

unfoldable pub to_text : ScaledDecimal → Text
unfolding digits_text
to_text a = if is_neg a then b'-' ∷ digits_text (absolute a) else digits_text (absolute a)
