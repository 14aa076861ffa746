-- ===== src/Breaker.antt =====
-- pkg/worker/breaker.go: the circuit breaker in front of a worker's backend.
-- Each method is a function on the struct's fields that takes the time of the call, a natural number
-- of nanoseconds on the monotonic clock; the mutex makes a method one step.
pub mod Machine
pub mod Probing
pub mod Retry
mod Examples
use infermesh.Prelude.{
  ℕ, suc, ◌+◌, Bool, true, false, List, [], ◌∷◌, ltb, if◌then◌else◌, ℤ, pos, int_leb,
}

pub data CircuitState : Type 0 where
  closed half_open open_ : CircuitState

pub record CircuitBreaker : Type 0 where
  pub state : CircuitState
  pub failure_count : ℕ
  pub failure_threshold : ℤ
  pub success_threshold : ℕ
  pub last_failure_time : ℕ
  pub cooldown_period : ℕ

unfoldable pub new_circuit_breaker : ℤ → ℕ → CircuitBreaker
new_circuit_breaker failure_threshold cooldown_period = record {
  state = closed;
  failure_count = 0;
  failure_threshold = failure_threshold;
  success_threshold = 1;
  last_failure_time = 0;
  cooldown_period = cooldown_period;
}

abbrev is_half_open : CircuitState → Bool
is_half_open half_open = true
is_half_open _ = false

unfoldable pub record_success : CircuitBreaker → CircuitBreaker
record_success cb =
    if is_half_open cb.state then record cb { state = closed; failure_count = 0 } else cb

unfoldable pub record_failure : ℕ → CircuitBreaker → CircuitBreaker
record_failure now cb =
    let counted = record cb { failure_count = suc cb.failure_count; last_failure_time = now } in
    if int_leb cb.failure_threshold (pos counted.failure_count)
    then record counted { state = open_ }
    else counted

-- `time.Since(last) > cooldown` is `last + cooldown < now`.
can_execute_in : CircuitState → ℕ → CircuitBreaker → Bool × CircuitBreaker
can_execute_in closed now cb = (true, cb)
can_execute_in half_open now cb = (true, cb)
can_execute_in open_ now cb =
    if ltb (cb.last_failure_time + cb.cooldown_period) now
    then (true, record cb { state = half_open })
    else (false, cb)

unfoldable pub can_execute : ℕ → CircuitBreaker → Bool × CircuitBreaker
unfolding can_execute_in
can_execute now cb = can_execute_in cb.state now cb

unfoldable pub get_state : CircuitBreaker → CircuitState
get_state cb = cb.state

-- The calls that other goroutines make, in the order in which they take the mutex.
pub data Call : Type 0 where
  succeeds : Call
  fails asks : ℕ → Call

unfoldable pub step : CircuitBreaker → Call → CircuitBreaker
unfolding record_success record_failure can_execute
step cb succeeds = record_success cb
step cb (fails now) = record_failure now cb
step cb (asks now) = (can_execute now cb).1

unfoldable pub run : CircuitBreaker → List Call → CircuitBreaker
run cb [] = cb
run cb (c ∷ cs) = run (step cb c) cs
