-- ===== src/Breaker/Examples.antt =====
-- Runs of the circuit breaker, and its theorems at inputs that meet their hypotheses.
use infermesh.Prelude.{ℕ, zero, suc, ◌+◌, ◌≡◌, refl, Option, none, some, [], ◌∷◌, arith, pos}
use infermesh.Breaker.{
  closed, half_open, open_, CircuitBreaker, new_circuit_breaker, succeeds, fails, asks, step, run,
}
use infermesh.Breaker.Machine.{IsValid, run-new_circuit_breaker-IsValid}
use infermesh.Breaker.Retry.{done, retry_with_backoff, retry_succeeds}

-- Three failures allowed, a cooldown of 100.
abbrev fresh : CircuitBreaker
fresh = record {
  state = closed;
  failure_count = 0;
  failure_threshold = pos 3;
  success_threshold = 1;
  last_failure_time = 0;
  cooldown_period = 100;
}

abbrev tripped : CircuitBreaker
tripped = record fresh { state = open_; failure_count = 3; last_failure_time = 30 }

abbrev probing : CircuitBreaker
probing = record tripped { state = half_open }

trips :
    run (new_circuit_breaker (pos 3) 100) (fails 10 ∷ succeeds ∷ fails 20 ∷ fails 30 ∷ []) ≡ tripped
unfolding run step new_circuit_breaker
trips = refl

run-new_circuit_breaker-IsValid_example :
    IsValid (run (new_circuit_breaker (pos 3) 100) (fails 10 ∷ asks 11 ∷ []))
run-new_circuit_breaker-IsValid_example =
    run-new_circuit_breaker-IsValid (pos 3) 100 (fails 10 ∷ asks 11 ∷ [])

tripped-IsValid : IsValid tripped
tripped-IsValid = ground arith

-- The first two attempts fail with their own numbers, the third succeeds.
abbrev flaky : ℕ → Option ℕ
flaky zero = some 0
flaky (suc zero) = some 1
flaky (suc (suc n)) = none

retry_succeeds_example :
    (w : ℕ) × (retry_with_backoff flaky (λ _. none) 5 ≡ (done, w)) × (w + 1 ≡ 4)
retry_succeeds_example =
    retry_succeeds flaky (λ _. none) 2 5 (omega arith) ((0, refl), refl, ((1, refl), refl, tt)) refl
