-- ===== src/Breaker/Limiter.antt =====
-- The rate limiter and the retries of the Hacienda breaker: they end, and what they bound.
use billing_api.Common.{
  ℕ, zero, suc, ◌+◌, ◌≤◌, ◌<◌, ◌≡◌, inl, inr, refl, Bool, true, List, [], ◌∷◌, ◌++◌, some, length,
  length-append, filter, leb, Bool-cases, All, arith,
}
use billing_api.Breaker.{
  Config, Breaker, enforce_outbound_rate_limit, limit, is_recent, wait_ms, sleep,
}

length-filter {ℓ} : {A : Type ℓ} (p : A → Bool) (xs : List A) → length (filter p xs) ≤ length xs
length-filter p [] = omega arith
length-filter p (x ∷ xs) = ground (arith, length-filter p xs)

-- After the wait the oldest request of the window has left it.
length-filter-wait :
    (now : ℕ) (ts : List ℕ)
    → 1 ≤ length ts
    → length (filter (is_recent (now + wait_ms now ts)) ts) < length ts
length-filter-wait now [] h = h
length-filter-wait now (t ∷ ts) h =
    ground (arith, length-filter (is_recent (now + wait_ms now (t ∷ ts))) ts)

-- The requests that a breaker counts in the window.
abbrev pub window : Breaker → List ℕ
window b = filter (is_recent b.now) b.request_timestamps

All-filter : (p : ℕ → Bool) (xs : List ℕ) → All (λ t. p t ≡ true) (filter p xs)
All-filter p [] = tt
All-filter p (x ∷ xs) = elim (Bool-cases (p x)) [
  | inl e ↦ rw e (e, All-filter p xs)
  | inr e ↦ rw e (All-filter p xs)
]

-- What the limiter leaves: at most so many requests, of the last second, the state as it was.
pub record Limited (config : Config) (b after : Breaker) : Type 0 where
  pub few : length after.request_timestamps ≤ config.outbound_max_per_second
  pub recent : All (λ t. is_recent after.now t ≡ true) after.request_timestamps
  pub later : b.now ≤ after.now
  pub same_state : after.state ≡ b.state
  pub same_count : after.failure_count ≡ b.failure_count
  pub same_calls : after.calls ≡ b.calls

All-snoc :
    (p : ℕ → Bool) (xs : List ℕ) (x : ℕ)
    → All (λ t. p t ≡ true) xs
    → p x ≡ true
    → All (λ t. p t ≡ true) (xs ++ x ∷ [])
All-snoc p [] x h k = (k, tt)
All-snoc p (y ∷ xs) x (g, h) k = (g, All-snoc p xs x h k)

abbrev waited : Breaker → Breaker
waited b = sleep (wait_ms b.now (window b)) (record b { request_timestamps = window b })

module _ (config : Config) (positive : 1 ≤ config.outbound_max_per_second) where
  enforce-Limited :
      (fuel : ℕ) (b : Breaker)
      → length (window b) < fuel
      → (after : Breaker) × (enforce_outbound_rate_limit config fuel b ≡ some after)
        × Limited config b after
  unfolding enforce_outbound_rate_limit
  enforce-Limited zero b h = absurd (omega arith)
  enforce-Limited (suc fuel) b h =
      elim (Bool-cases (leb config.outbound_max_per_second (length (window b)))) [
        | inr e ↦ (
          record b { request_timestamps = window b ++ b.now ∷ [] },
          rw e refl,
          record {
            few = rw (length-append (window b) (b.now ∷ [])) (ground arith);
            recent =
                All-snoc (is_recent b.now) (window b) b.now
                  (All-filter (is_recent b.now) b.request_timestamps) (ground arith);
            later = omega arith;
            same_state = refl;
            same_count = refl;
            same_calls = refl;
          },
        )
        | inl e ↦
            let (after, k, l) =
              enforce-Limited fuel (waited b)
                (let l = length-filter-wait b.now (window b) (ground arith) in omega arith) in
            (
              after,
              rw e k,
              record {
                few = l.few;
                recent = l.recent;
                later = omega (arith, l.later);
                same_state = l.same_state;
                same_count = l.same_count;
                same_calls = l.same_calls;
              },
            )
      ]

  -- With a positive rate the limiter ends, whatever the requests before, and lets a call pass with at
  -- most that many requests recorded in the last second, its own among them; the circuit is as it
  -- was.
  pub limit-Limited :
      (b : Breaker) → (after : Breaker) × (limit config b ≡ some after) × Limited config b after
  limit-Limited b =
      enforce-Limited (suc (length b.request_timestamps)) b
        (let l = length-filter (is_recent b.now) b.request_timestamps in omega arith)
