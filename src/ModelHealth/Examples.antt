-- ===== src/ModelHealth/Examples.antt =====
-- A tracker that is turned off for a while, and its theorem at that run.
use infermesh.Prelude.{ℕ, ◌≡◌, true, false, List, [], ◌∷◌}
use infermesh.ModelHealth.{
  healthy, degraded, unhealthy, Call, sets_enabled, records, new_model_health_tracker, run,
}
use infermesh.ModelHealth.Checks.{run-new_model_health_tracker}

abbrev history : List (Call ℕ)
history =
    records 1 unhealthy 0
    ∷ records 2 healthy 0
    ∷ records 3 degraded 0
    ∷ sets_enabled false
    ∷ records 4 healthy 0
    ∷ sets_enabled true
    ∷ records 5 unhealthy 0
    ∷ []

run-new_model_health_tracker_example :
    ((run (new_model_health_tracker 0 true) history).consecutive_failures ≡ 2)
    × ((run (new_model_health_tracker 0 true) history).health_status ≡ unhealthy)
run-new_model_health_tracker_example = run-new_model_health_tracker 0 true history
