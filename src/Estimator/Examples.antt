-- ===== src/Estimator/Examples.antt =====
-- An estimator of four after five requests, the last ones slow, and the theorems about it.
use infermesh.Prelude.{◌+◌, ◌*◌, ◌/◌, ◌≤◌, true, none, List, [], ◌∷◌, arith, pos}
use infermesh.Estimator.{
  Floats, ConcurrencyEstimator, new_estimator_with_init, effective_cap, Call, requests, opens,
  closes, ticks, run,
}
use infermesh.Estimator.Bounds.{effective_cap-run_bounds}

abbrev floats : Floats
floats = record {
  smoothed = λ b l. (9 * b + l) / 10;
  doubled = λ b. 2 * b;
  rank_95 = λ n. n * 95 / 100;
}

abbrev history : List Call
history = requests 0 5 200 ∷ requests 1 6 429 ∷ opens 7 ∷ ticks 8 ∷ closes 9 ∷ ticks 10 ∷ []

effective_cap-run_bounds_example :
    (1 ≤ effective_cap (run floats (new_estimator_with_init (pos 0) (pos 6)) history))
    × (effective_cap (run floats (new_estimator_with_init (pos 0) (pos 6)) history) ≤ 6)
effective_cap-run_bounds_example =
    effective_cap-run_bounds floats (pos 0) (pos 6) 6 history (omega arith)
      (unfold new_estimator_with_init in omega arith)

abbrev slow : ConcurrencyEstimator
slow = record {
  cap = 4;
  window_429 = [];
  latencies = 50 ∷ 50 ∷ 50 ∷ 50 ∷ 50 ∷ 10 ∷ [];
  baseline_latency = 10;
  last_cap_changed = none;
  changed = true;
}
