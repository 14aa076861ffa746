-- ===== src/Breaker/Probing.antt =====
-- The half-open state of the circuit breaker of pkg/worker/breaker.go.
use infermesh.Prelude.{ℕ, ◌+◌, ◌≤◌, ◌<◌, ◌≡◌, refl, ap, ◌∙◌, true, false, List, [], ◌∷◌, map, arith}
use infermesh.Breaker.{
  closed, half_open, open_, CircuitBreaker, record_success, record_failure, can_execute, asks, step,
  run,
}
use infermesh.Breaker.Machine.{IsValid}

-- In a breaker that is valid and open, the first request after the cooldown is let through and makes
-- the breaker half open. From there a success closes it with no failure counted, and one failure
-- opens it again: requests are refused until the cooldown has passed since that failure.
probe_outcome :
    (cb : CircuitBreaker) (now later next : ℕ)
    → IsValid cb
    → cb.state ≡ open_
    → cb.last_failure_time + cb.cooldown_period < now
    → next ≤ later + cb.cooldown_period
    → let (allowed, probing) = can_execute now cb in
      let reopened = record_failure later probing in
      (allowed ≡ true)
      × (probing.state ≡ half_open)
      × ((record_success probing).state ≡ closed)
      × ((record_success probing).failure_count ≡ 0)
      × (reopened.state ≡ open_)
      × (can_execute next reopened ≡ (false, reopened))
unfolding can_execute record_success record_failure
probe_outcome cb now later next v o h k = ground (arith, v.tripped)

step_half_open : (cb : CircuitBreaker) (t : ℕ) → cb.state ≡ half_open → step cb (asks t) ≡ cb
unfolding step can_execute
step_half_open cb t h = ground arith

can_execute_half_open :
    (cb : CircuitBreaker) (now : ℕ) → cb.state ≡ half_open → can_execute now cb ≡ (true, cb)
unfolding can_execute
can_execute_half_open cb now h = ground arith

run_half_open :
    (cb : CircuitBreaker) (times : List ℕ) → cb.state ≡ half_open → run cb (map asks times) ≡ cb
unfolding run
run_half_open cb [] h = refl
run_half_open cb (t ∷ ts) h =
    ap (λ b. run b (map asks ts)) (step_half_open cb t h) ∙ run_half_open cb ts h

-- A half-open breaker lets every request through, however many came before, and none of them changes
-- it: the probe is not limited to one request.
half_open_admits_all :
    (cb : CircuitBreaker) (times : List ℕ) (now : ℕ)
    → cb.state ≡ half_open
    → can_execute now (run cb (map asks times)) ≡ (true, cb)
half_open_admits_all cb times now h = rw (run_half_open cb times h) (can_execute_half_open cb now h)
