-- ===== src/Breaker/Tests.antt =====
-- Runs of the theorems on the breaker.
use billing_api.Common.{
  ℕ, ◌≤◌, ◌<◌, ◌≡◌, ◌⊎◌, refl, leb, if◌then◌else◌, [], ◌∷◌, some, Result, err, arith,
}
use billing_api.Breaker.{
  closed, opened, Config, Breaker, CallError, Unavailable, other, circuit_open, rethrown,
  default_config, initial, enforce_outbound_rate_limit, execute_with_retry, execute, run_limited,
  attempts, on_failure, verdict,
}
use billing_api.Breaker.Circuit.{Settled, admitted, execute_ends, Failures-opened}

-- One failure opens the circuit.
abbrev strict : Config
strict = record default_config { failure_threshold = 1 }

abbrev failing : ℕ → Result CallError ℕ
failing n = err other

abbrev quick : ℕ → ℕ
quick n = 5

execute_ends_example :
    ((closed ≡ opened)
      × (9 < 0)
      × (execute default_config failing quick (initial 9) ≡ some (err circuit_open, initial 9)))
    ⊎ ((r : Result Unavailable ℕ) × (after : Breaker) × (execute default_config failing quick
            (initial 9)
          ≡ some (r, after))
        × (closed ≡ opened → 0 ≤ 9)
        × Settled default_config
            (attempts default_config failing quick)
            (admitted (initial 9))
            r
            after)
execute_ends_example = execute_ends default_config failing quick (omega arith) (initial 9)

abbrev tripped : Breaker
tripped = record {
  state = opened;
  failure_count = 1;
  next_attempt_time = 30014;
  request_timestamps = 9 ∷ [];
  now = 14;
  calls = 1;
}

trips : execute strict failing quick (initial 9) ≡ some (err (rethrown other), tripped)
unfolding execute run_limited execute_with_retry enforce_outbound_rate_limit on_failure verdict
trips = refl

Failures-opened_example :
    (tripped.failure_count ≡ 1)
    × (tripped.state ≡ (if leb strict.failure_threshold 1 then opened else closed))
Failures-opened_example =
    Failures-opened strict (λ n. failing) quick (omega arith) 1 (initial 9) tripped refl refl
      (omega arith) (omega arith) (rethrown other, tripped, trips, refl)
