-- ===== src/Money/RoundTrip.antt =====
-- Every amount is read back from its text.
use billing_api.Common.{
  ℕ, suc, ◌+◌, ◌*◌, ◌/◌, ◌%◌, ◌≤◌, true, false, [], ◌∷◌, ◌++◌, some, ◌≡◌, refl, ◌∙◌, ap, arith,
  Text, ℤ, pos, negsuc, sub_ℕ, length, all_digits, split, big_int, to_decimal, pad_start, pad_end,
  to_decimal_digits, to_decimal_nonempty, length-to_decimal, length-pad_start, all_digits-pad_start,
  big_int-pad_start, big_int-to_decimal,
}
use native.Mathlib.Nat.{add-zero, zero-add}
use mathlib.Core.List.{append-nil}
use billing_api.Money.{
  factor, decimal_tail, is_decimal, starts_with_minus, remove_minus, from_parts, from_split, from,
  digits_text, to_text,
}

split_digits : (s : Text) → all_digits s ≡ true → split b'.' s ≡ s ∷ []
unfolding split all_digits
split_digits [] h = refl
split_digits (c ∷ s) h = ground (arith, split_digits s)

split_at_dot :
    (s t : Text)
    → all_digits s ≡ true
    → all_digits t ≡ true
    → split b'.' (s ++ b'.' ∷ t) ≡ s ∷ t ∷ []
unfolding split all_digits
split_at_dot [] t h k = ground (arith, split_digits t k)
split_at_dot (c ∷ s) t h k = ground (arith, split_at_dot s t)

decimal_tail_seen :
    (s t : Text)
    → all_digits s ≡ true
    → all_digits t ≡ true
    → length t ≡ 5
    → decimal_tail true (s ++ b'.' ∷ t) ≡ true
unfolding decimal_tail all_digits
decimal_tail_seen [] t h k l = ground arith
decimal_tail_seen (c ∷ s) t h k l = ground (arith, decimal_tail_seen s t)

is_decimal_digits :
    (s t : Text)
    → all_digits s ≡ true
    → 1 ≤ length s
    → all_digits t ≡ true
    → length t ≡ 5
    → (is_decimal (s ++ b'.' ∷ t) ≡ true) × (is_decimal (b'-' ∷ (s ++ b'.' ∷ t)) ≡ true)
unfolding is_decimal decimal_tail all_digits
is_decimal_digits [] t h n k l = absurd (omega arith)
is_decimal_digits (c ∷ s) t h n k l = ground (arith, decimal_tail_seen s t)

no_minus : (s : Text) → all_digits s ≡ true → (starts_with_minus s ≡ false) × (remove_minus s ≡ s)
unfolding starts_with_minus remove_minus all_digits
no_minus [] h = (refl, refl)
no_minus (c ∷ s) h = ground (arith, no_minus s)

pad_end_full : (s : Text) → length s ≡ 5 → pad_end 5 s ≡ s
unfolding pad_end
pad_end_full s h = rw h (append-nil s)

-- The two halves of the text of an absolute value.
abbrev whole_of : ℕ → Text
whole_of a = to_decimal (a / factor)

abbrev fraction_of : ℕ → Text
fraction_of a = pad_start 5 (to_decimal (a % factor))

fraction_digits : (a : ℕ) → all_digits (fraction_of a) ≡ true
fraction_digits a =
    all_digits-pad_start 5 (to_decimal (a % factor)) (to_decimal_digits (a % factor))

length-fraction : (a : ℕ) → length (fraction_of a) ≡ 5
length-fraction a =
    length-pad_start 5 (to_decimal (a % factor)) (length-to_decimal 4 (a % factor) (omega arith))

big_int-fraction : (a : ℕ) → big_int (pad_end 5 (fraction_of a)) ≡ a % factor
big_int-fraction a =
    ap big_int (pad_end_full (fraction_of a) (length-fraction a))
    ∙ big_int-pad_start 5 (to_decimal (a % factor))
    ∙ big_int-to_decimal (a % factor)

from_parts_lem :
    (a : ℕ)
    → (from_parts (whole_of a) (fraction_of a) ≡ pos a)
      × (from_parts (b'-' ∷ whole_of a) (fraction_of a) ≡ sub_ℕ 0 a)
unfolding from_parts
from_parts_lem a =
    let (no_sign, same) = no_minus (whole_of a) (to_decimal_digits (a / factor)) in
    let n : big_int (whole_of a) * factor + big_int (pad_end 5 (fraction_of a)) ≡ a =
      omega (arith, big_int-to_decimal (a / factor), big_int-fraction a) in
    (rw (no_sign, same, n) refl, rw n refl)

split_signed :
    (s : Text) {w f : Text}
    → split b'.' s ≡ w ∷ f ∷ []
    → split b'.' (b'-' ∷ s) ≡ (b'-' ∷ w) ∷ f ∷ []
unfolding split
split_signed s h = rw h refl

from_of_split :
    (s : Text) {w f : Text}
    → is_decimal s ≡ true
    → split b'.' s ≡ w ∷ f ∷ []
    → from s ≡ some (from_parts w f)
unfolding from from_split
from_of_split s h e = rw (h, e) refl

from-digits_text :
    (a : ℕ)
    → (from (digits_text a) ≡ some (pos a)) × (from (b'-' ∷ digits_text a) ≡ some (sub_ℕ 0 a))
unfolding digits_text
from-digits_text a =
    let (plain, negative) =
      is_decimal_digits (whole_of a) (fraction_of a) (to_decimal_digits (a / factor))
        (to_decimal_nonempty (a / factor)) (fraction_digits a) (length-fraction a) in
    let parts =
      split_at_dot (whole_of a) (fraction_of a) (to_decimal_digits (a / factor))
        (fraction_digits a) in
    let (p, q) = from_parts_lem a in
    (
      from_of_split (digits_text a) plain parts ∙ ap some p,
      from_of_split (b'-' ∷ digits_text a) negative (split_signed (digits_text a) parts)
          ∙ ap some q,
    )

-- Every amount, negative ones too, is read back from its text.
pub from-to_text : (a : ℤ) → from (to_text a) ≡ some a
unfolding to_text
from-to_text (pos n) = rw (add-zero n) (from-digits_text n).0
from-to_text (negsuc n) = rw zero-add ((from-digits_text (suc n)).1 ∙ ap some (ground arith))
