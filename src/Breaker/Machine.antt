-- ===== src/Breaker/Machine.antt =====
-- Invariants of the circuit breaker of pkg/worker/breaker.go over every history of calls.
use infermesh.Prelude.{
  ℕ, suc, ◌+◌, ◌≤◌, ◌≡◌, ◌≢◌, refl, false, List, [], ◌∷◌, arith, ℤ, pos, int_leb, ◌≤ℤ◌, ◌<ℤ◌, ◌⊎◌,
  ◌∙◌,
}
use infermesh.Breaker.{
  closed, open_, CircuitBreaker, new_circuit_breaker, record_failure, can_execute, Call, succeeds,
  fails, asks, step, run,
}

pub record IsValid (cb : CircuitBreaker) : Type 0 where
  pub tripped : cb.state ≢ closed → cb.failure_threshold ≤ℤ pos cb.failure_count
  pub quiet :
      cb.state ≡ closed
      → (cb.failure_count ≡ 0) ⊎ (int_leb cb.failure_threshold (pos cb.failure_count) ≡ false)

step-IsValid : (cb : CircuitBreaker) (c : Call) → IsValid cb → IsValid (step cb c)
unfolding step
step-IsValid cb succeeds v = ground arith
step-IsValid cb (fails now) v = ground arith
step-IsValid cb (asks now) v = ground arith

run-IsValid : (cb : CircuitBreaker) (cs : List Call) → IsValid cb → IsValid (run cb cs)
unfolding run
run-IsValid cb [] v = v
run-IsValid cb (c ∷ cs) v = run-IsValid (step cb c) cs (step-IsValid cb c v)

-- After any history of calls, a breaker that is not closed has counted at least its threshold of
-- failures, and a closed one has counted none or fewer than the threshold.
pub run-new_circuit_breaker-IsValid :
    (threshold : ℤ) (cooldown : ℕ) (cs : List Call)
    → IsValid (run (new_circuit_breaker threshold cooldown) cs)
unfolding new_circuit_breaker
run-new_circuit_breaker-IsValid threshold cooldown cs =
    run-IsValid (new_circuit_breaker threshold cooldown) cs (ground arith)

-- What every call may ask of a breaker that is open and cooling down.
abbrev pub Early : ℕ → Call → Type 0
Early limit succeeds = Unit
Early limit (fails now) = ⊥
Early limit (asks now) = now ≤ limit

abbrev pub AllEarly : ℕ → List Call → Type 0
AllEarly limit [] = Unit
AllEarly limit (c ∷ cs) = Early limit c × AllEarly limit cs

step-Early :
    (cb : CircuitBreaker) (c : Call)
    → cb.state ≡ open_
    → Early (cb.last_failure_time + cb.cooldown_period) c
    → step cb c ≡ cb
unfolding step
step-Early cb succeeds o e = ground arith
step-Early cb (fails now) o e = absurd e
step-Early cb (asks now) o e = ground arith

run-Early :
    (cb : CircuitBreaker) (cs : List Call)
    → cb.state ≡ open_
    → AllEarly (cb.last_failure_time + cb.cooldown_period) cs
    → run cb cs ≡ cb
unfolding run
run-Early cb [] o e = refl
run-Early cb (c ∷ cs) o e = rw (step-Early cb c o e.0) (run-Early cb cs o e.1)

-- An open breaker that sees no new failure stays as it is and refuses every request until more than
-- the cooldown has passed since its last failure, whatever successes and requests come before.
open_refuses :
    (cb : CircuitBreaker) (cs : List Call) (now : ℕ)
    → cb.state ≡ open_
    → AllEarly (cb.last_failure_time + cb.cooldown_period) cs
    → now ≤ cb.last_failure_time + cb.cooldown_period
    → can_execute now (run cb cs) ≡ (false, cb)
unfolding can_execute
open_refuses cb cs now o e h = rw (run-Early cb cs o e) (ground arith)

abbrev pub failures : List Call → ℕ
failures [] = 0
failures (succeeds ∷ cs) = failures cs
failures (fails now ∷ cs) = suc (failures cs)
failures (asks now ∷ cs) = failures cs

-- How a closed breaker moves on while the failures stay below the threshold.
step_closed :
    (cb : CircuitBreaker) (c : Call)
    → cb.state ≡ closed
    → pos (cb.failure_count + failures (c ∷ [])) <ℤ cb.failure_threshold
    → ((step cb c).state ≡ closed)
      × ((step cb c).failure_count ≡ cb.failure_count + failures (c ∷ []))
      × ((step cb c).failure_threshold ≡ cb.failure_threshold)
unfolding step
step_closed cb succeeds o h = ground arith
step_closed cb (fails now) o h = ground arith
step_closed cb (asks now) o h = ground arith

failures-cons : (c : Call) (cs : List Call) → failures (c ∷ cs) ≡ failures (c ∷ []) + failures cs
failures-cons succeeds cs = omega arith
failures-cons (fails now) cs = omega arith
failures-cons (asks now) cs = omega arith

run_closed :
    (cb : CircuitBreaker) (cs : List Call)
    → cb.state ≡ closed
    → pos (cb.failure_count + failures cs) <ℤ cb.failure_threshold
    → ((run cb cs).state ≡ closed)
      × ((run cb cs).failure_count ≡ cb.failure_count + failures cs)
      × ((run cb cs).failure_threshold ≡ cb.failure_threshold)
unfolding run
run_closed cb [] o h = (o, omega arith, refl)
run_closed cb (c ∷ cs) o h =
    let (s, n, t) = step_closed cb c o (omega (arith, failures-cons c cs)) in
    let (s', n', t') =
      run_closed (step cb c) cs s (rw (n, t) (omega (arith, failures-cons c cs))) in
    (s', n' ∙ omega (arith, n, failures-cons c cs), t' ∙ t)

-- A closed breaker stays closed while its failures stay below the threshold, and the failure that
-- reaches the threshold opens it. Successes in between do not start the count afresh.
opens_at_threshold :
    (cb : CircuitBreaker) (cs : List Call) (now : ℕ)
    → cb.state ≡ closed
    → pos (suc (cb.failure_count + failures cs)) ≡ cb.failure_threshold
    → ((run cb cs).state ≡ closed)
      × ((record_failure now (run cb cs)).state ≡ open_)
      × ((record_failure now (run cb cs)).last_failure_time ≡ now)
unfolding record_failure
opens_at_threshold cb cs now o h =
    let (s, n, t) = run_closed cb cs o (rw (← h) (omega arith)) in
    (s, ground (arith, n, t), ground arith)
