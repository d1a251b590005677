-- ===== src/Breaker.antt =====
-- src/infrastructure/integrations/hacienda/hacienda-circuit-breaker.service.ts: one call of
-- `execute` after another. Time is a number of milliseconds that passes in sleeps and in `fn`;
-- `calls` counts the calls of `fn`. The rate limiter and the retries run on fuel.
pub mod Limiter
pub mod Circuit
mod Tests
use billing_api.Common.{
  ℕ, zero, suc, ◌+◌, ◌-◌, ◌*◌, Bool, true, false, ◌||◌, List, [], ◌∷◌, ◌++◌, Option, none, some,
  length, filter, ltb, leb, ◌==◌, if◌then◌else◌, Result, ok, err,
}

pub data CircuitState : Type 0 where
  closed opened half_open : CircuitState

pub record Config : Type 0 where
  pub failure_threshold : ℕ
  pub reset_timeout_ms : ℕ
  pub outbound_max_per_second : ℕ
  pub retry_429_count : ℕ
  pub retry_429_base_delay_ms : ℕ
  pub retry_5xx_count : ℕ
  pub retry_5xx_delay_ms : ℕ

-- The defaults of the constructor.
abbrev pub default_config : Config
default_config = record {
  failure_threshold = 5;
  reset_timeout_ms = 30000;
  outbound_max_per_second = 8;
  retry_429_count = 2;
  retry_429_base_delay_ms = 1000;
  retry_5xx_count = 1;
  retry_5xx_delay_ms = 2000;
}

pub record Breaker : Type 0 where
  pub state : CircuitState
  pub failure_count : ℕ
  pub next_attempt_time : ℕ
  pub request_timestamps : List ℕ
  pub now : ℕ
  pub calls : ℕ

abbrev pub initial : ℕ → Breaker
initial now = record {
  state = closed;
  failure_count = 0;
  next_attempt_time = 0;
  request_timestamps = [];
  now = now;
  calls = 0;
}

-- An error of `fn`: one of Axios, with the status of its response, if there is one, and whether
-- its code is ECONNABORTED; or another.
pub data CallError : Type 0 where
  axios : Option ℕ → Bool → CallError
  other : CallError

pub data Unavailable : Type 0 where
  circuit_open hacienda_rate_limited hacienda_server_error : Unavailable
  rethrown : CallError → Unavailable

abbrev pub sleep : ℕ → Breaker → Breaker
sleep ms b = record b { now = b.now + ms }

abbrev pub is_recent : ℕ → ℕ → Bool
is_recent now t = ltb now (t + 1000)

-- `1000 - (now - oldestTs) + 10`, if it is positive
abbrev pub wait_ms : ℕ → List ℕ → ℕ
wait_ms now [] = 0
wait_ms now (t ∷ _) = 1010 + t - now

unfoldable pub enforce_outbound_rate_limit : Config → ℕ → Breaker → Option Breaker
enforce_outbound_rate_limit config zero b = none
enforce_outbound_rate_limit config (suc fuel) b =
    let kept = filter (is_recent b.now) b.request_timestamps in
    let b₁ : Breaker = record b { request_timestamps = kept } in
    let again = enforce_outbound_rate_limit config fuel (sleep (wait_ms b.now kept) b₁) in
    if leb config.outbound_max_per_second (length kept)
    then again
    else some (record b₁ { request_timestamps = kept ++ b.now ∷ [] })

-- Fuel for the limiter, enough by Breaker/Limiter.
abbrev pub limit : Config → Breaker → Option Breaker
limit config b = enforce_outbound_rate_limit config (suc (length b.request_timestamps)) b

unfoldable pub on_success : Breaker → Breaker
on_success b = elim b.state [
  | half_open ↦ record b { failure_count = 0; state = closed }
  | _ ↦ record b { failure_count = 0 }
]

abbrev pub trip : Config → Breaker → Breaker
trip config b = record b { state = opened; next_attempt_time = b.now + config.reset_timeout_ms }

unfoldable pub on_failure : Config → Breaker → Breaker
on_failure config b =
    let b₁ : Breaker = record b { failure_count = b.failure_count + 1 } in
    elim b.state [
      | half_open ↦ trip config b₁
      | closed ↦ if leb config.failure_threshold (b.failure_count + 1) then trip config b₁ else b₁
      | opened ↦ b₁
    ]

-- How the `catch` block takes an error.
pub data Verdict : Type 0 where
  rate_limit server fatal : Verdict

abbrev is_transient : Option ℕ → Bool → Bool
is_transient none aborted = true
is_transient (some status) aborted = leb 500 status || aborted

abbrev is_429 : Option ℕ → Bool
is_429 none = false
is_429 (some status) = status == 429

unfoldable pub verdict : CallError → Verdict
verdict other = fatal
verdict (axios status aborted) =
    if is_429 status then rate_limit else if is_transient status aborted then server else fatal

abbrev pub retry_count : Config → Verdict → ℕ
retry_count config rate_limit = config.retry_429_count
retry_count config server = config.retry_5xx_count
retry_count config fatal = 0

abbrev pub retry_delay : Config → Verdict → ℕ → ℕ
retry_delay config rate_limit attempt = config.retry_429_base_delay_ms * (attempt + 1)
retry_delay config _ attempt = config.retry_5xx_delay_ms

-- The exception of the last attempt.
abbrev pub final_error : Verdict → CallError → Unavailable
final_error rate_limit e = hacienda_rate_limited
final_error server e = hacienda_server_error
final_error fatal e = rethrown e

module _ {A : Type 0} (config : Config) (fn : ℕ → Result CallError A) (took : ℕ → ℕ) where
  -- The breaker after a call of `fn`, at the attempt of that number.
  abbrev pub called : ℕ → Breaker → Breaker
  called attempt b = record b { now = b.now + took attempt; calls = b.calls + 1 }

  -- A retry, once the limiter lets it pass.
  unfoldable pub retry :
      (Breaker → Option (Result Unavailable A × Breaker))
      → Option Breaker
      → Option (Result Unavailable A × Breaker)
  retry next none = none
  retry next (some b) = next b

  unfoldable pub execute_with_retry : ℕ → ℕ → Breaker → Option (Result Unavailable A × Breaker)
  execute_with_retry zero attempt b = none
  execute_with_retry (suc fuel) attempt b = elim (fn attempt) [
    | ok a ↦ some (ok a, on_success (called attempt b))
    | err e ↦
        if ltb attempt (retry_count config (verdict e))
        then retry (execute_with_retry fuel (suc attempt))
            (limit config (sleep (retry_delay config (verdict e) attempt) (called attempt b)))
        else some (err (final_error (verdict e) e), on_failure config (called attempt b))
  ]

  -- One attempt more than the retries.
  abbrev pub attempts : ℕ
  attempts = suc (config.retry_429_count + config.retry_5xx_count)

  unfoldable pub run_limited : Option Breaker → Option (Result Unavailable A × Breaker)
  run_limited none = none
  run_limited (some b) = execute_with_retry attempts 0 b

  unfoldable pub execute : Breaker → Option (Result Unavailable A × Breaker)
  execute b = elim b.state [
    | opened ↦
        if ltb b.now b.next_attempt_time
        then some (err circuit_open, b)
        else run_limited (limit config (record b { state = half_open }))
    | _ ↦ run_limited (limit config b)
  ]
