-- ===== src/Common/Texts.antt =====
-- Texts as lists of UTF-16 code units, the form in which the source tests, trims and pads them.
use Prim.Native.Nat.{ℕ, ◌-◌}
use Prim.Native.Char.{code}
use Prim.Native.String.{String}
use mathlib.Core.Path.{◌≡◌, refl, sym}
use mathlib.Core.Logic.{◌≢◌, ◌↔◌, inl, inr}
use mathlib.Core.Bool.{Bool, true, false, ◌&&◌, ◌||◌}
use mathlib.Core.List.{List, [], ◌∷◌, ◌++◌, reverse, Memᴰ}
use native.Mathlib.Omega.{arith}
use billing_api.Common.Tests.{leb, ◌==◌, if◌then◌else◌, Bool-cases}
use billing_api.Common.Lists.{length, replicate}

abbrev pub Text : Type 0
Text = List ℕ

-- The code units of an ASCII literal. `String` has its own `[]` and `∷`.
abbrev pub codes : String → Text
codes String.[] = []
codes (String.◌∷◌ c s) = code c ∷ codes s

-- `s === t`
unfoldable pub eq_text : Text → Text → Bool
eq_text [] [] = true
eq_text [] (_ ∷ _) = false
eq_text (_ ∷ _) [] = false
eq_text (c ∷ s) (d ∷ t) = c == d && eq_text s t

pub eq_text_sound : (s t : Text) → eq_text s t ≡ true → s ≡ t
unfolding eq_text
eq_text_sound [] [] h = refl
eq_text_sound [] (_ ∷ _) h = cc
eq_text_sound (_ ∷ _) [] h = cc
eq_text_sound (c ∷ s) (d ∷ t) h = ground (arith, eq_text_sound s t)

pub eq_text_self : (s : Text) → eq_text s s ≡ true
unfolding eq_text
eq_text_self [] = refl
eq_text_self (c ∷ s) = ground (arith, eq_text_self s)

pub eq_text_iff : (s t : Text) → (eq_text s t ≡ true) ↔ (s ≡ t)
eq_text_iff s t = (eq_text_sound s t, λ p. rw p (eq_text_self t))

pub eq_text_sym : (s t : Text) → eq_text s t ≡ eq_text t s
unfolding eq_text
eq_text_sym [] [] = refl
eq_text_sym [] (_ ∷ _) = refl
eq_text_sym (_ ∷ _) [] = refl
eq_text_sym (c ∷ s) (d ∷ t) = ground (arith, eq_text_sym s t)

pub eq_text_other : (s t : Text) → s ≢ t → eq_text s t ≡ false
eq_text_other s t ne = elim (Bool-cases (eq_text s t)) [
  | inl same ↦ absurd (ne (eq_text_sound s t same))
  | inr other ↦ other
]

-- `xs.includes(s)`
unfoldable pub includes : List Text → Text → Bool
unfolding eq_text
includes [] s = false
includes (t ∷ ts) s = eq_text t s || includes ts s

pub includes-Mem : (ts : List Text) (s : Text) → includes ts s ≡ true → Memᴰ s ts
unfolding includes
includes-Mem [] s h = cc
includes-Mem (t ∷ ts) s h = elim (Bool-cases (eq_text t s)) [
  | inl here ↦ Memᴰ.head (sym (eq_text_sound t s here))
  | inr further ↦ Memᴰ.tail (includes-Mem ts s (ground arith))
]

pub Mem-includes : (ts : List Text) (s : Text) → Memᴰ s ts → includes ts s ≡ true
unfolding includes
Mem-includes [] s m = elim m [ ]
Mem-includes (t ∷ ts) s (Memᴰ.head e) = ground (arith, (eq_text_iff t s).1 (sym e))
Mem-includes (t ∷ ts) s (Memᴰ.tail m) = ground (arith, Mem-includes ts s m)

-- The texts of a list that are not in another.
abbrev pub without : List Text → List Text → List Text
without out [] = []
without out (t ∷ ts) = if includes out t then without out ts else t ∷ without out ts

pub includes-without :
    (out ts : List Text) (s : Text)
    → includes ts s ≡ true
    → includes out s ≡ false
    → includes (without out ts) s ≡ true
unfolding includes
includes-without out [] s h k = cc
includes-without out (t ∷ ts) s h k = elim (Bool-cases (eq_text t s)) [
  | inl here ↦ let kept : includes out t ≡ false = rw (eq_text_sound t s here) k in ground arith
  | inr further ↦ ground (arith, includes-without out ts s (ground arith) k)
]

-- `!s` of a text
abbrev pub is_empty : Text → Bool
is_empty [] = true
is_empty (_ ∷ _) = false

-- `\d`
abbrev pub is_digit : ℕ → Bool
is_digit c = leb b'0' c && leb c b'9'

unfoldable pub all_digits : Text → Bool
all_digits [] = true
all_digits (c ∷ s) = is_digit c && all_digits s

-- `/^\d{n}$/`
unfoldable pub is_digits : ℕ → Text → Bool
unfolding all_digits
is_digits n s = length s == n && all_digits s

-- `/^\d{1,n}$/`
unfoldable pub is_digits_up_to : ℕ → Text → Bool
unfolding all_digits
is_digits_up_to n s = leb 1 (length s) && leb (length s) n && all_digits s

-- The white space of `trim` and of `\s`.
unfoldable pub is_space : ℕ → Bool
is_space c =
    (leb 9 c && leb c 13)
    || c == 32
    || c == 160
    || c == 5760
    || (leb 8192 c && leb c 8202)
    || c == 8232
    || c == 8233
    || c == 8239
    || c == 8287
    || c == 12288
    || c == 65279

unfoldable pub trim_start : Text → Text
unfolding is_space
trim_start [] = []
trim_start (c ∷ s) = if is_space c then trim_start s else c ∷ s

unfoldable pub trim : Text → Text
unfolding trim_start
trim s = reverse (trim_start (reverse (trim_start s)))

-- `s.padStart(n, '0')` and `s.padEnd(n, '0')`
unfoldable pub pad_start : ℕ → Text → Text
pad_start n s = replicate (n - length s) b'0' ++ s

unfoldable pub pad_end : ℕ → Text → Text
pad_end n s = s ++ replicate (n - length s) b'0'

-- Whether a text begins with another, and `s.includes(t)`.
unfoldable pub is_prefix : Text → Text → Bool
is_prefix [] s = true
is_prefix (_ ∷ _) [] = false
is_prefix (d ∷ t) (c ∷ s) = d == c && is_prefix t s

unfoldable pub contains_text : Text → Text → Bool
unfolding is_prefix
contains_text [] t = is_prefix t []
contains_text (c ∷ s) t = is_prefix t (c ∷ s) || contains_text s t

-- `s.split(sep)` at one code unit.
unfoldable pub split : ℕ → Text → List Text
split sep [] = [] ∷ []
split sep (c ∷ s) =
    let parts = split sep s in
    if c == sep then [] ∷ parts else elim parts [ [] ↦ (c ∷ []) ∷ [] | p ∷ ps ↦ (c ∷ p) ∷ ps ]
