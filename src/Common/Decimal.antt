-- ===== src/Common/Decimal.antt =====
-- Decimal numerals: `n.toString()` and `BigInt(s)` of a text of digits.
use Prim.Native.Nat.{ℕ, zero, suc, ◌+◌, ◌-◌, ◌*◌, ◌/◌, ◌%◌, ◌^◌, ◌≤◌, ◌<◌}
use mathlib.Core.Path.{◌≡◌, refl}
use mathlib.Core.Bool.{true}
use mathlib.Core.Logic.{inl, inr}
use mathlib.Core.List.{[], ◌∷◌, ◌++◌}
use native.Mathlib.Nat.{pow-suc}
use native.Mathlib.Omega.{arith}
use billing_api.Common.Tests.{ltb, if◌then◌else◌, Bool-cases}
use billing_api.Common.Lists.{length, replicate, length-append, length-replicate}
use billing_api.Common.Texts.{Text, all_digits, pad_start}

-- `BigInt(s)` of a text of digits, from the left.
unfoldable pub big_int_from : ℕ → Text → ℕ
big_int_from acc [] = acc
big_int_from acc (c ∷ s) = big_int_from (acc * 10 + (c - b'0')) s

unfoldable pub big_int : Text → ℕ
unfolding big_int_from
big_int s = big_int_from 0 s

-- `n.toString()`. The fuel `n` covers the digits of `n`.
unfoldable pub to_decimal_from : ℕ → ℕ → Text
to_decimal_from zero n = (b'0' + n) ∷ []
to_decimal_from (suc f) n =
    let shorter = to_decimal_from f (n / 10) ++ (b'0' + n % 10) ∷ [] in
    if ltb n 10 then (b'0' + n) ∷ [] else shorter

unfoldable pub to_decimal : ℕ → Text
unfolding to_decimal_from
to_decimal n = to_decimal_from n n

pub all_digits-append :
    (s t : Text) → all_digits s ≡ true → all_digits t ≡ true → all_digits (s ++ t) ≡ true
unfolding all_digits
all_digits-append [] t h k = k
all_digits-append (c ∷ s) t h k = ground (arith, all_digits-append s t)

pub all_digits-zeros : (n : ℕ) → all_digits (replicate n b'0') ≡ true
unfolding all_digits
all_digits-zeros zero = refl
all_digits-zeros (suc n) = all_digits-zeros n

big_int_from-append :
    (acc : ℕ) (s t : Text) → big_int_from acc (s ++ t) ≡ big_int_from (big_int_from acc s) t
unfolding big_int_from
big_int_from-append acc [] t = refl
big_int_from-append acc (c ∷ s) t = big_int_from-append (acc * 10 + (c - b'0')) s t

big_int_from-zeros : (n : ℕ) (s : Text) → big_int_from 0 (replicate n b'0' ++ s) ≡ big_int_from 0 s
unfolding big_int_from
big_int_from-zeros zero s = refl
big_int_from-zeros (suc n) s = big_int_from-zeros n s

-- Leading zeros do not change a number.
pub big_int-pad_start : (n : ℕ) (s : Text) → big_int (pad_start n s) ≡ big_int s
unfolding big_int pad_start
big_int-pad_start n s = big_int_from-zeros (n - length s) s

to_decimal_from_digits : (f n : ℕ) → n ≤ f → all_digits (to_decimal_from f n) ≡ true
unfolding to_decimal_from all_digits
to_decimal_from_digits zero n h = ground arith
to_decimal_from_digits (suc f) n h = elim (Bool-cases (ltb n 10)) [
  | inl small ↦ rw small (ground arith)
  | inr large ↦ rw large (
      all_digits-append (to_decimal_from f (n / 10)) ((b'0' + n % 10) ∷ [])
        (to_decimal_from_digits f (n / 10) (ground arith)) (ground arith))
]

pub to_decimal_digits : (n : ℕ) → all_digits (to_decimal n) ≡ true
unfolding to_decimal
to_decimal_digits n = to_decimal_from_digits n n (omega arith)

big_int-to_decimal_from : (f n : ℕ) → n ≤ f → big_int_from 0 (to_decimal_from f n) ≡ n
unfolding to_decimal_from big_int_from
big_int-to_decimal_from zero n h = ground arith
big_int-to_decimal_from (suc f) n h = elim (Bool-cases (ltb n 10)) [
  | inl small ↦ rw small (ground arith)
  | inr large ↦ rw large (
      rw (big_int_from-append 0 (to_decimal_from f (n / 10)) ((b'0' + n % 10) ∷ []))
        (rw (big_int-to_decimal_from f (n / 10) (ground arith)) (omega arith)))
]

-- A number is read back from its numeral.
pub big_int-to_decimal : (n : ℕ) → big_int (to_decimal n) ≡ n
unfolding big_int to_decimal
big_int-to_decimal n = big_int-to_decimal_from n n (omega arith)

pub to_decimal_nonempty : (n : ℕ) → 1 ≤ length (to_decimal n)
unfolding to_decimal to_decimal_from
to_decimal_nonempty zero = omega arith
to_decimal_nonempty (suc n) =
    ground (arith, length-append {0} (to_decimal_from n (suc n / 10)) ((b'0' + suc n % 10) ∷ []))

quotient_lt : (k n : ℕ) → n < 10 ^ suc (suc k) → n / 10 < 10 ^ suc k
quotient_lt k n h = let e = pow-suc 10 (suc k) in let b = rw e at h in omega arith

length-to_decimal_from : (k f n : ℕ) → n ≤ f → n < 10 ^ suc k → length (to_decimal_from f n) ≤ suc k
unfolding to_decimal_from
length-to_decimal_from k zero n h b = omega arith
length-to_decimal_from zero (suc f) n h b = ground arith
length-to_decimal_from (suc k) (suc f) n h b = elim (Bool-cases (ltb n 10)) [
  | inl small ↦ rw small (omega arith)
  | inr large ↦ rw large (
      omega (
        arith,
        length-append {0} (to_decimal_from f (n / 10)) ((b'0' + n % 10) ∷ []),
        length-to_decimal_from k f (n / 10) (ground arith) (quotient_lt k n b),
      ))
]

-- A number below a power of ten has at most that many digits.
pub length-to_decimal : (k n : ℕ) → n < 10 ^ suc k → length (to_decimal n) ≤ suc k
unfolding to_decimal
length-to_decimal k n h = length-to_decimal_from k n n (omega arith) h

pub length-pad_start : (k : ℕ) (s : Text) → length s ≤ k → length (pad_start k s) ≡ k
unfolding pad_start
length-pad_start k s h = omega (
  arith,
  length-append {0} (replicate (k - length s) b'0') s,
  length-replicate {A = ℕ} (k - length s) b'0',
)

pub all_digits-pad_start :
    (k : ℕ) (s : Text) → all_digits s ≡ true → all_digits (pad_start k s) ≡ true
unfolding pad_start
all_digits-pad_start k s h =
    all_digits-append (replicate (k - length s) b'0') s (all_digits-zeros (k - length s)) h
