-- ===== src/RequestTracker/Examples.antt =====
-- A run of the tracker, and the theorems at it.
use infermesh.Prelude.{◌≡◌, List, [], ◌∷◌, arith, pos, filter_by}
use infermesh.RequestTracker.{
  RequestTracker, new_request_tracker, Call, begins, sets_status, finishes, run, snapshot,
  status_streaming, status_done,
}
use infermesh.RequestTracker.Bounds.{IsValid, run-new_request_tracker-IsValid}
use infermesh.RequestTracker.Recent.{is_recent, snapshot_recent}

abbrev history : List Call
history =
    begins "req-1" "llama" "a" "host-a" "chat" 10
    ∷ begins "req-2" "phi" "b" "" "chat" 20
    ∷ sets_status "req-1" status_streaming
    ∷ finishes "req-1" status_done 30
    ∷ finishes "req-2" status_done 70
    ∷ []

run-new_request_tracker-IsValid_example :
    IsValid (run (new_request_tracker (pos 0) (pos 50)) history)
run-new_request_tracker-IsValid_example = run-new_request_tracker-IsValid (pos 0) (pos 50) history

abbrev tracker : RequestTracker
tracker = run (new_request_tracker (pos 2) (pos 50)) history

snapshot_recent_example :
    (snapshot (λ rs. rs) 90 tracker).0.completed
    ≡ filter_by (is_recent 90 tracker.completed_ttl) tracker.completed
snapshot_recent_example = snapshot_recent (λ rs. rs) (pos 2) (pos 50) 90 history (omega arith)
