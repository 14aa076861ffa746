-- ===== src/RequestTracker.antt =====
-- pkg/router/request_tracker.go: the trace of the requests that the router dispatched. Times are
-- nanoseconds on the clock of the calls, and the mutex makes each method one step. The id of a request
-- is minted from the clock and a counter, and is an argument here. The goroutine of `Start` prunes at
-- times of its own: a `ticks` call, which `Snapshot` changes the tracker like.
pub mod Bounds
pub mod Recent
mod Examples
use infermesh.Prelude.{
  ℕ, suc, ◌+◌, ◌-◌, ◌*◌, ◌/◌, String, Bool, true, false, ◌&&◌, Option, none, some, List, [], ◌∷◌,
  ◌++◌, ltb, if◌then◌else◌, Map, lookup, insert, delete, ℤ, pos, negsuc, pos_part, int_leb, take,
}

abbrev pub status_inflight : String
status_inflight = "in-flight"

abbrev pub status_streaming : String
status_streaming = "streaming"

abbrev pub status_done : String
status_done = "done"

abbrev pub status_error : String
status_error = "error"

abbrev pub default_max_completed_requests : ℕ
default_max_completed_requests = 200

-- 10 minutes, in nanoseconds.
abbrev pub default_completed_request_ttl : ℕ
default_completed_request_ttl = 600000000000

-- `finished_at` and `duration_ms` are 0 until the request is finished.
pub record RequestRecord : Type 0 where
  pub request_id : String
  pub model : String
  pub worker_id : String
  pub worker_host : String
  pub kind : String
  pub started_at : ℕ
  pub finished_at : ℕ
  pub status : String
  pub duration_ms : ℕ

pub record RequestTracker : Type 0 where
  pub active : Map RequestRecord
  pub completed : List RequestRecord
  pub max_completed : ℕ
  pub completed_ttl : ℕ

-- An argument that is not positive falls back to the default.
positive_or : ℤ → ℕ → ℕ
positive_or n default = if int_leb n (pos 0) then default else pos_part n

unfoldable pub new_request_tracker : ℤ → ℤ → RequestTracker
unfolding positive_or
new_request_tracker max_completed completed_ttl = record {
  active = [];
  completed = [];
  max_completed = positive_or max_completed default_max_completed_requests;
  completed_ttl = positive_or completed_ttl default_completed_request_ttl;
}

-- `Before(now - ttl)`
abbrev pub is_expired : ℕ → ℕ → RequestRecord → Bool
is_expired now ttl r = ltb (r.finished_at + ttl) now

abbrev keep_last : Bool → RequestRecord → List RequestRecord → List RequestRecord
keep_last expired r (x ∷ xs) = r ∷ x ∷ xs
keep_last true r [] = []
keep_last false r [] = r ∷ []

-- The loop of `pruneLocked` that moves `cut` down from the end.
pub reap : ℕ → ℕ → List RequestRecord → List RequestRecord
reap now ttl [] = []
reap now ttl (r ∷ rs) = keep_last (is_expired now ttl r) r (reap now ttl rs)

unfoldable pub prune_locked : ℕ → RequestTracker → RequestTracker
unfolding reap
prune_locked now t = record t {
  completed = reap now t.completed_ttl (take t.max_completed t.completed);
}

unfoldable pub begin :
    String → String → String → String → String → ℕ → RequestTracker → RequestTracker
begin id model worker_id worker_host kind now t = record t {
  active =
      insert id
        (record {
          request_id = id;
          model = model;
          worker_id = worker_id;
          worker_host = worker_host;
          kind = kind;
          started_at = now;
          finished_at = 0;
          status = status_inflight;
          duration_ms = 0;
        })
        t.active;
}

set_found : String → String → Option RequestRecord → RequestTracker → RequestTracker
set_found id status none t = t
set_found id status (some r) t = record t {
  active = insert id (record r { status = status }) t.active;
}

unfoldable pub set_status : String → String → RequestTracker → RequestTracker
unfolding set_found
set_status id status t = set_found id status (lookup id t.active) t

-- The record of a request that is finished at time `now`.
abbrev pub finished : String → ℕ → RequestRecord → RequestRecord
finished status now r = record r {
  finished_at = now;
  status = status;
  duration_ms = (now - r.started_at) / 1000000;
}

finish_found : String → String → ℕ → Option RequestRecord → RequestTracker → RequestTracker
unfolding prune_locked
finish_found id status now none t = t
finish_found id status now (some r) t =
    prune_locked now
      (record t { active = delete id t.active; completed = finished status now r ∷ t.completed })

unfoldable pub finish : String → String → ℕ → RequestTracker → RequestTracker
unfolding finish_found
finish id status now t = finish_found id status now (lookup id t.active) t

values : Map RequestRecord → List RequestRecord
values [] = []
values ((id, r) ∷ m) = r ∷ values m

-- The tracker after the call, and what it returns; `sort` is `sort.SliceStable` by the start, the
-- newest first.
unfoldable pub snapshot :
    (List RequestRecord → List RequestRecord)
    → ℕ
    → RequestTracker
    → RequestTracker × List RequestRecord
unfolding prune_locked values
snapshot sort now t = let t' = prune_locked now t in (t', sort (values t'.active ++ t'.completed))

pub data Call : Type 0 where
  begins : String → String → String → String → String → ℕ → Call
  sets_status : String → String → Call
  finishes : String → String → ℕ → Call
  ticks : ℕ → Call

unfoldable pub step : RequestTracker → Call → RequestTracker
unfolding begin set_status finish prune_locked
step t (begins id model worker_id worker_host kind now) =
    begin id model worker_id worker_host kind now t
step t (sets_status id status) = set_status id status t
step t (finishes id status now) = finish id status now t
step t (ticks now) = prune_locked now t

unfoldable pub run : RequestTracker → List Call → RequestTracker
run t [] = t
run t (c ∷ cs) = run (step t c) cs
