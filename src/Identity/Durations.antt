-- ===== src/Identity/Durations.antt =====
-- The durations of tokens, in application/use-cases/shared/auth-token-duration.ts: how long they are
-- at least, and when the dates that they give are valid.
use billing_api.Common.{
  ℕ, ◌+◌, ◌*◌, ◌/◌, ◌≤◌, ◌<◌, ◌≡◌, inl, inr, refl, [], ◌∷◌, Option, none, some, Text, codes,
  big_int, Option-cases, arith,
}
use native.Mathlib.Nat.{mul-le-mul_right}
use billing_api.Identity

-- A duration that is matched has a unit of a second at least.
match_duration-unit :
    (t digits : Text) (unit : ℕ) → Identity.match_duration t ≡ some (digits, unit) → 1000 ≤ unit
unfolding Identity.match_duration
match_duration-unit [] digits unit e = cc
match_duration-unit (c ∷ []) digits unit e = cc
match_duration-unit (c ∷ d ∷ []) digits unit e = ground arith
match_duration-unit (c ∷ d ∷ x ∷ s) digits unit e =
    elim (Option-cases (Identity.match_duration (d ∷ x ∷ s))) [
      | inl missing ↦ absurd (ground arith)
      | inr ((ds, u), found) ↦
          let least = match_duration-unit (d ∷ x ∷ s) ds u found in ground arith
    ]

-- Every duration is positive: also one that cannot be read, or that is zero.
parse_duration-positive :
    (lower : Text → Text) (duration : Text) (ms : ℕ)
    → Identity.parse_duration lower duration ≡ some ms
    → 1000 ≤ ms
unfolding Identity.parse_duration
parse_duration-positive lower duration ms e =
    elim (Option-cases (Identity.match_duration (lower (Identity.trim duration)))) [
      | inl missing ↦ absurd (ground arith)
      | inr ((digits, unit), found) ↦
          let least = match_duration-unit (lower (Identity.trim duration)) digits unit found in
          let counted : 0 < big_int digits = ground arith in
          let product : ms ≡ big_int digits * unit = ground arith in
          let grown = mul-le-mul_right unit counted in omega arith
    ]

first_of-least :
    (n : ℕ) (a b : Option ℕ) (c : ℕ)
    → ((x : ℕ) → a ≡ some x → n ≤ x)
    → ((x : ℕ) → b ≡ some x → n ≤ x)
    → n ≤ c
    → n ≤ Identity.first_of a b c
first_of-least n (some a) b c ha hb hc = ha a refl
first_of-least n none (some b) c ha hb hc = hb b refl
first_of-least n none none c ha hb hc = hc

pub milliseconds :
    (lower : Text → Text) (now : ℕ) (duration : Text) (ends : ℕ)
    → Identity.add_auth_duration_to_date lower now duration ≡ some ends
    → (now + 1000 ≤ ends) × (ends ≤ 8640000000000000)
unfolding Identity.add_auth_duration_to_date Identity.parse_auth_duration_to_milliseconds
milliseconds lower now duration ends e =
    let total =
      first_of-least 1000 (Identity.parse_duration lower duration)
        (Identity.parse_duration lower (codes "7d")) (7 * 86400000)
        (parse_duration-positive lower duration) (parse_duration-positive lower (codes "7d"))
        (omega arith) in
    (ground arith, ground arith)

pub seconds :
    (lower : Text → Text) (duration : Text)
    → 1 ≤ Identity.parse_auth_duration_to_seconds lower duration (codes "15m")
unfolding Identity.parse_auth_duration_to_seconds
seconds lower duration =
    first_of-least 1 (Identity.in_seconds lower (Identity.parse_duration lower duration))
      (Identity.in_seconds lower (Identity.parse_duration lower (codes "15m"))) 900
      (in_seconds-least (Identity.parse_duration lower duration)
        (parse_duration-positive lower duration))
      (in_seconds-least (Identity.parse_duration lower (codes "15m"))
        (parse_duration-positive lower (codes "15m")))
      (omega arith)
  where
    in_seconds-least :
        (o : Option ℕ)
        → ((ms : ℕ) → o ≡ some ms → 1000 ≤ ms)
        → (n : ℕ) → Identity.in_seconds lower o ≡ some n
        → 1 ≤ n
    in_seconds-least none h n e = cc
    in_seconds-least (some ms) h n e =
        let least = h ms refl in let same : ms / 1000 ≡ n = ground arith in omega arith
