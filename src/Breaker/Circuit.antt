-- ===== src/Breaker/Circuit.antt =====
-- The circuit of the Hacienda breaker over whole calls of `execute`.
use billing_api.Common.{
  ℕ, zero, suc, ◌+◌, ◌≤◌, ◌<◌, ◌≡◌, ◌≢◌, ◌⊎◌, inl, inr, refl, sym, ◌∙◌, ap, Bool, true, false, some,
  ltb, leb, if◌then◌else◌, Bool-cases, or_else, Result, ok, err, Result-cases, arith,
}
use billing_api.Breaker.{
  CircuitState, closed, opened, half_open, Config, Breaker, CallError, Unavailable, circuit_open,
  Verdict, limit, sleep, execute_with_retry, execute, retry, run_limited, attempts, called,
  retry_count, retry_delay, on_success, on_failure, verdict, final_error,
}
use billing_api.Breaker.Limiter.{Limited, limit-Limited}

abbrev pub is_ok : {A : Type 0} → Result Unavailable A → Bool
is_ok (ok a) = true
is_ok (err e) = false

-- The circuit after a call that passed it, from its state and the failures before.
abbrev pub circuit_after : Config → CircuitState → ℕ → Bool → CircuitState × ℕ
circuit_after config opened n true = (opened, 0)
circuit_after config _ n true = (closed, 0)
circuit_after config closed n false =
    (if leb config.failure_threshold (n + 1) then opened else closed, n + 1)
circuit_after config _ n false = (opened, n + 1)

-- A call that reached `fn`: `more` calls of it at most, and the circuit follows the result.
pub record Settled {A : Type 0} (config : Config) (more : ℕ) (b : Breaker)
    (r : Result Unavailable A) (after : Breaker) : Type 0 where
  pub calls_lem : (b.calls < after.calls) × (after.calls ≤ b.calls + more)
  pub circuit_lem :
      (after.state, after.failure_count) ≡ circuit_after config b.state b.failure_count (is_ok r)

on_success-circuit :
    (config : Config) (b : Breaker)
    → ((on_success b).state, (on_success b).failure_count)
      ≡ circuit_after config b.state b.failure_count true
unfolding on_success
on_success-circuit config b = ground arith

on_failure-circuit :
    (config : Config) (b : Breaker)
    → ((on_failure config b).state, (on_failure config b).failure_count)
      ≡ circuit_after config b.state b.failure_count false
unfolding on_failure
on_failure-circuit config b = ground arith

on_success-calls : (b : Breaker) → (on_success b).calls ≡ b.calls
unfolding on_success
on_success-calls b = ground arith

on_failure-calls : (config : Config) (b : Breaker) → (on_failure config b).calls ≡ b.calls
unfolding on_failure
on_failure-calls config b = ground arith

-- A call whose limiter let it pass, first and on a retry.
Settled-Limited :
    {A : Type 0} (config : Config) (more : ℕ) (b b' after : Breaker) (r : Result Unavailable A)
    → Limited config b b'
    → Settled config more b' r after
    → Settled config more b r after
Settled-Limited config more b b' after r m t = record {
  calls_lem =
      (omega (arith, t.calls_lem.0, m.same_calls), omega (arith, t.calls_lem.1, m.same_calls));
  circuit_lem = rw (sym m.same_state) (rw (sym m.same_count) t.circuit_lem);
}

Settled-retry :
    {A : Type 0} (config : Config) (fuel : ℕ) (b s b' after : Breaker) (r : Result Unavailable A)
    → s.state ≡ b.state
    → s.failure_count ≡ b.failure_count
    → s.calls ≡ b.calls + 1
    → Limited config s b'
    → Settled config fuel b' r after
    → Settled config (suc fuel) b r after
Settled-retry config fuel b s b' after r p q c m t = record {
  calls_lem =
      (omega (arith, t.calls_lem.0, m.same_calls), omega (arith, t.calls_lem.1, m.same_calls));
  circuit_lem = rw (sym p ∙ sym m.same_state) (rw (sym q ∙ sym m.same_count) t.circuit_lem);
}

closed-opened : closed ≢ opened
closed-opened h = cc

State-cases : (s : CircuitState) → (s ≢ opened) ⊎ (s ≡ opened)
State-cases closed = inl (λ h. cc)
State-cases opened = inr refl
State-cases half_open = inl (λ h. cc)

-- An open circuit whose time has come is half open during the call.
abbrev pub admitted : Breaker → Breaker
admitted b = record b { state = elim b.state [ closed ↦ closed | _ ↦ half_open ] }

admitted-other : (b : Breaker) → b.state ≢ opened → admitted b ≡ b
admitted-other b h = ground arith

retry_count-sum :
    (config : Config) (v : Verdict)
    → retry_count config v ≤ config.retry_429_count + config.retry_5xx_count
retry_count-sum config v = ground arith

module _ {A : Type 0} (config : Config) (fn : ℕ → Result CallError A) (took : ℕ → ℕ)
    (positive : 1 ≤ config.outbound_max_per_second) where
  -- The end of a call, with fuel for the attempts left.
  abbrev Ends : ℕ → ℕ → Breaker → Type 0
  Ends fuel attempt b =
      (r : Result Unavailable A) × (after : Breaker) × (execute_with_retry config fn took fuel
          attempt b
        ≡ some (r, after))
      × Settled config fuel b r after

  execute_with_retry-Ends :
      (fuel attempt : ℕ) (b : Breaker)
      → fuel + attempt ≡ attempts config fn took
      → 1 ≤ fuel
      → Ends fuel attempt b
  unfolding execute_with_retry retry
  execute_with_retry-Ends zero attempt b e h = absurd (omega arith)
  execute_with_retry-Ends (suc fuel) attempt b e h = elim (Result-cases (fn attempt)) [
    | inl (a, k) ↦
        let c = on_success-calls (called config fn took attempt b) in
        (
          ok a,
          on_success (called config fn took attempt b),
          ground arith,
          record {
            calls_lem = (omega arith, omega arith);
            circuit_lem = on_success-circuit config (called config fn took attempt b);
          },
        )
    | inr (x, k) ↦ elim (Bool-cases (ltb attempt (retry_count config (verdict x)))) [
      | inr l ↦
          let c = on_failure-calls config (called config fn took attempt b) in
          (
            err (final_error (verdict x) x),
            on_failure config (called config fn took attempt b),
            ground arith,
            record {
              calls_lem = (omega arith, omega arith);
              circuit_lem = on_failure-circuit config (called config fn took attempt b);
            },
          )
      | inl l ↦
          let s =
            sleep (retry_delay config (verdict x) attempt) (called config fn took attempt b) in
          let (b', q, m) = limit-Limited config positive s in
          let (r, after, p, t) =
            execute_with_retry-Ends fuel (suc attempt) b' (omega arith)
              (let w = retry_count-sum config (verdict x) in ground arith) in
          (r, after, ground arith, Settled-retry config fuel b s b' after r refl refl refl m t)
    ]
  ]

  limited-Settled :
      (b : Breaker)
      → (r : Result Unavailable A) × (after : Breaker) × (run_limited config fn took
            (limit config b)
          ≡ some (r, after))
        × Settled config (attempts config fn took) b r after
  unfolding run_limited
  limited-Settled b =
      let (b', q, m) = limit-Limited config positive b in
      let (r, after, p, t) =
        execute_with_retry-Ends (attempts config fn took) 0 b' (omega arith) (omega arith) in
      (r, after, rw q p, Settled-Limited config (attempts config fn took) b b' after r m t)

  execute-other :
      (b : Breaker)
      → b.state ≢ opened
      → execute config fn took b ≡ run_limited config fn took (limit config (admitted b))
  unfolding execute
  execute-other b h = rw (admitted-other b h) (ground arith)

  execute-opened :
      (b : Breaker)
      → b.state ≡ opened
      → b.next_attempt_time ≤ b.now
      → execute config fn took b ≡ run_limited config fn took (limit config (admitted b))
  unfolding execute
  execute-opened b h le = ground arith

  -- `execute` ends, with fuel for every retry. While the circuit is open and its time has not come,
  -- it is refused without a call of `fn`; else `fn` is called at least once and at most once more
  -- than the two retry counts together, and the circuit follows the result, half open where it was
  -- open.
  pub execute_ends :
      (b : Breaker)
      → ((b.state ≡ opened)
          × (b.now < b.next_attempt_time)
          × (execute config fn took b ≡ some (err circuit_open, b)))
        ⊎ ((r : Result Unavailable A) × (after : Breaker) × (execute config fn took b
              ≡ some (r, after))
            × ((b.state ≡ opened) → b.next_attempt_time ≤ b.now)
            × Settled config (attempts config fn took) (admitted b) r after)
  unfolding execute
  execute_ends b =
      let (r, after, p, t) = limited-Settled (admitted b) in
      elim (State-cases b.state) [
        | inl n ↦ inr (r, after, execute-other b n ∙ p, (λ o. absurd (n o)), t)
        | inr o ↦ elim (Bool-cases (ltb b.now b.next_attempt_time)) [
          | inl l ↦ inl (o, ground arith, ground arith)
          | inr l ↦
              let le : b.next_attempt_time ≤ b.now = ground arith in
              inr (r, after, execute-opened b o le ∙ p, (λ _. le), t)
        ]
      ]

module _ {A : Type 0} (config : Config) (fns : ℕ → ℕ → Result CallError A) (took : ℕ → ℕ)
    (positive : 1 ≤ config.outbound_max_per_second) where
  -- So many calls one after another, each of which fails.
  abbrev pub Failures : ℕ → Breaker → Breaker → Type 0
  Failures zero b after = b ≡ after
  Failures (suc n) b after =
      (e : Unavailable) × (c : Breaker) × (execute config (fns n) took b ≡ some (err e, c))
      × Failures n c after

  closed-fails :
      (n : ℕ) (b c : Breaker) (e : Unavailable)
      → b.state ≡ closed
      → execute config (fns n) took b ≡ some (err e, c)
      → (c.state, c.failure_count) ≡ circuit_after config closed b.failure_count false
  closed-fails n b c e s h = elim (execute_ends config (fns n) took positive b) [
    | inl (o, _, _) ↦ absurd (closed-opened (sym s ∙ o))
    | inr (r, after, p, _, t) ↦
        let z : (r, after) ≡ (err e, c) = ap (λ o. or_else o (r, after)) (sym p ∙ h) in
        let w : (admitted b).state ≡ closed = ground arith in
        ap (λ x. (x.1.state, x.1.failure_count)) (sym z)
        ∙ t.circuit_lem
        ∙ ap (λ x. circuit_after config (admitted b).state b.failure_count (is_ok x.0)) z
        ∙ ap (λ x. circuit_after config x b.failure_count false) w
  ]

  Failures-failure_count :
      (n k : ℕ) (b after : Breaker)
      → b.state ≡ closed
      → b.failure_count ≡ k
      → k < config.failure_threshold
      → k + n ≤ config.failure_threshold
      → Failures n b after
      → (after.failure_count ≡ k + n)
        × (after.state ≡ (if leb config.failure_threshold (k + n) then opened else closed))
  Failures-failure_count zero k b after s c l m f = ground arith
  Failures-failure_count (suc zero) k b after s c l m (e, d, h, f) =
      let q = closed-fails zero b d e s h in
      (
        ap (λ x. x.failure_count) (sym f) ∙ ap (λ p. p.1) q ∙ ap (λ x. x + 1) c,
        ap (λ x. x.state) (sym f)
            ∙ ap (λ p. p.0) q
            ∙ ap (λ x. if leb config.failure_threshold (x + 1) then opened else closed) c,
      )
  Failures-failure_count (suc (suc n)) k b after s c l m (e, d, h, f) =
      let q = closed-fails (suc n) b d e s h in
      let (x, y) =
        Failures-failure_count (suc n) (k + 1) d after (ap (λ p. p.0) q ∙ ground arith)
          (ap (λ p. p.1) q ∙ ap (λ x. x + 1) c) (omega arith) (omega arith) f in
      (
        omega arith,
        y ∙ ap (λ x. if leb config.failure_threshold x then opened else closed) (omega arith),
      )

  -- The circuit of a breaker that is closed and has counted no failure opens at the failure of
  -- the threshold, no earlier: after so many failed calls it is open if the threshold is reached,
  -- and closed before.
  pub Failures-opened :
      (n : ℕ) (b after : Breaker)
      → b.state ≡ closed
      → b.failure_count ≡ 0
      → 1 ≤ config.failure_threshold
      → n ≤ config.failure_threshold
      → Failures n b after
      → (after.failure_count ≡ n)
        × (after.state ≡ (if leb config.failure_threshold n then opened else closed))
  Failures-opened n b after s c l m f =
      let (x, y) = Failures-failure_count n 0 b after s c (omega arith) (omega arith) f in
      (
        omega arith,
        y ∙ ap (λ x. if leb config.failure_threshold x then opened else closed) (omega arith),
      )
