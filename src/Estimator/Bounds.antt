-- ===== src/Estimator/Bounds.antt =====
-- The bounds of the cap of pkg/worker/concurrency_estimator.go.
use infermesh.Prelude.{ℕ, ◌≤◌, ◌≡◌, arith, leb, Bool, List, [], ◌∷◌, length, ℤ}
use infermesh.Estimator.{
  ConcurrencyEstimator, Floats, new_estimator_with_init, record_request, record_circuit_open,
  record_circuit_closed, effective_cap, prune, lower_if, shed_429, shed_spike, spikes, recover,
  notify_if, recompute, Call, requests, opens, closes, ticks, step, run,
}

-- The cap is between 1 and `n`.
abbrev pub InBounds : ℕ → ConcurrencyEstimator → Type 0
InBounds n e = (1 ≤ e.cap) × (e.cap ≤ n)

lower_if-InBounds :
    (n : ℕ) (b : Bool) (now : ℕ) (e : ConcurrencyEstimator)
    → InBounds n e
    → InBounds n (lower_if b now e)
unfolding lower_if
lower_if-InBounds n b now e h = ground arith

recover-InBounds :
    (n now : ℕ) (e : ConcurrencyEstimator) → 4 ≤ n → InBounds n e → InBounds n (recover now e)
unfolding recover
recover-InBounds n now e d h = ground arith

pub notify_if-cap : (c : ℕ) (e : ConcurrencyEstimator) → (notify_if c e).cap ≡ e.cap
unfolding notify_if
notify_if-cap c e = ground arith

recompute-InBounds :
    (floats : Floats) (n now : ℕ) (e : ConcurrencyEstimator)
    → 4 ≤ n
    → InBounds n e
    → InBounds n (recompute floats now e)
unfolding recompute prune shed_429 shed_spike
recompute-InBounds floats n now e d h =
    let pruned = prune now e in
    let shed = shed_429 now pruned in
    rw notify_if-cap (
      recover-InBounds n now (shed_spike floats now shed) d (
        lower_if-InBounds n (spikes floats shed) now shed
          (lower_if-InBounds n (leb 2 (length pruned.window_429)) now pruned h)))

step-InBounds :
    (floats : Floats) (n : ℕ) (e : ConcurrencyEstimator) (c : Call)
    → 4 ≤ n
    → InBounds n e
    → InBounds n (step floats e c)
unfolding step record_request record_circuit_open record_circuit_closed
step-InBounds floats n e (requests start now status) d h = h
step-InBounds floats n e (opens now) d h = ground arith
step-InBounds floats n e (closes now) d h = ground arith
step-InBounds floats n e (ticks now) d h = recompute-InBounds floats n now e d h

run-InBounds :
    (floats : Floats) (n : ℕ) (cs : List Call) (e : ConcurrencyEstimator)
    → 4 ≤ n
    → InBounds n e
    → InBounds n (run floats e cs)
unfolding run
run-InBounds floats n [] e d h = h
run-InBounds floats n (c ∷ cs) e d h =
    run-InBounds floats n cs (step floats e c) d (step-InBounds floats n e c d h)

-- Whatever was persisted and whatever the seed, and after any history of requests, changes of the
-- circuit and ticks, the cap that the worker announces is at least 1, and at most the larger of the cap
-- that the estimator began with and the default of 4.
pub effective_cap-run_bounds :
    (floats : Floats) (persisted init_cap : ℤ) (n : ℕ) (cs : List Call)
    → 4 ≤ n
    → (new_estimator_with_init persisted init_cap).cap ≤ n
    → (1 ≤ effective_cap (run floats (new_estimator_with_init persisted init_cap) cs))
      × (effective_cap (run floats (new_estimator_with_init persisted init_cap) cs) ≤ n)
unfolding effective_cap
effective_cap-run_bounds floats persisted init_cap n cs d h = ground (arith, bounds)
  where
    start : ConcurrencyEstimator
    start = new_estimator_with_init persisted init_cap

    least : 1 ≤ start.cap
    least = unfold new_estimator_with_init in ground arith

    bounds : InBounds n (run floats start cs)
    bounds = run-InBounds floats n cs start d (least, h)
