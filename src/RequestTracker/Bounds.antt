-- ===== src/RequestTracker/Bounds.antt =====
-- What holds of the tracker of pkg/router/request_tracker.go after any history.
use infermesh.Prelude.{
  ℕ, suc, ◌≤◌, ◌<◌, ◌≡◌, refl, String, Bool, true, false, Option, none, some, List, [], ◌∷◌, arith,
  length, take, length-take-le, lookup, delete, Distinct, insert-Distinct, delete-Distinct, Entries,
  insert-Entries, delete-Entries, lookup-Entries, ℤ,
}
use native.Mathlib.Nat.{le_trans}
use infermesh.RequestTracker.{
  RequestRecord, RequestTracker, new_request_tracker, positive_or, is_expired, keep_last, reap,
  prune_locked, begin, set_status, set_found, finish, finish_found, finished, Call, begins,
  sets_status, finishes, ticks, step, run,
}

pub record IsValid (t : RequestTracker) : Type 0 where
  pub room : 0 < t.max_completed
  pub bounded : length t.completed ≤ t.max_completed
  pub distinct : Distinct t.active
  pub keyed : Entries (λ id r. r.request_id ≡ id) t.active

keep_last-length :
    (b : Bool) (r : RequestRecord) (rs : List RequestRecord)
    → length (keep_last b r rs) ≤ suc (length rs)
keep_last-length b r (x ∷ rs) = omega arith
keep_last-length true r [] = omega arith
keep_last-length false r [] = omega arith

pub reap-length : (now ttl : ℕ) (rs : List RequestRecord) → length (reap now ttl rs) ≤ length rs
unfolding reap
reap-length now ttl [] = omega arith
reap-length now ttl (r ∷ rs) =
    omega
      (arith, reap-length now ttl rs, keep_last-length (is_expired now ttl r) r (reap now ttl rs))

prune_locked-bounded :
    (now : ℕ) (t : RequestTracker) → length (prune_locked now t).completed ≤ t.max_completed
unfolding prune_locked
prune_locked-bounded now t =
    le_trans (reap-length now t.completed_ttl (take t.max_completed t.completed))
      (length-take-le t.max_completed t.completed)

set_found-IsValid :
    (id status : String) (o : Option RequestRecord) (t : RequestTracker)
    → lookup id t.active ≡ o
    → IsValid t
    → IsValid (set_found id status o t)
unfolding set_found
set_found-IsValid id status none t h v = v
set_found-IsValid id status (some r) t h v = record {
  room = v.room;
  bounded = v.bounded;
  distinct = insert-Distinct id (record r { status = status }) t.active v.distinct;
  keyed =
      insert-Entries (λ i x. x.request_id ≡ i) id (record r { status = status }) t.active
        (lookup-Entries (λ i x. x.request_id ≡ i) id r t.active v.keyed h) v.keyed;
}

finish_found-IsValid :
    (id status : String) (now : ℕ) (o : Option RequestRecord) (t : RequestTracker)
    → IsValid t
    → IsValid (finish_found id status now o t)
unfolding finish_found
finish_found-IsValid id status now none t v = v
finish_found-IsValid id status now (some r) t v = record {
  room = unfold prune_locked in v.room;
  bounded =
      prune_locked-bounded now
        (record t { active = delete id t.active; completed = finished status now r ∷ t.completed });
  distinct = unfold prune_locked in delete-Distinct id t.active v.distinct;
  keyed = unfold prune_locked in delete-Entries (λ i x. x.request_id ≡ i) id t.active v.keyed;
}

step-IsValid : (t : RequestTracker) (c : Call) → IsValid t → IsValid (step t c)
unfolding step begin set_status finish
step-IsValid t (begins id model worker_id worker_host kind now) v = record {
  room = v.room;
  bounded = v.bounded;
  distinct = insert-Distinct id _ t.active v.distinct;
  keyed = insert-Entries (λ i x. x.request_id ≡ i) id _ t.active refl v.keyed;
}
step-IsValid t (sets_status id status) v = set_found-IsValid id status (lookup id t.active) t refl v
step-IsValid t (finishes id status now) v =
    finish_found-IsValid id status now (lookup id t.active) t v
step-IsValid t (ticks now) v = record {
  room = unfold prune_locked in v.room;
  bounded = prune_locked-bounded now t;
  distinct = unfold prune_locked in v.distinct;
  keyed = unfold prune_locked in v.keyed;
}

run-IsValid : (t : RequestTracker) (cs : List Call) → IsValid t → IsValid (run t cs)
unfolding run
run-IsValid t [] v = v
run-IsValid t (c ∷ cs) v = run-IsValid (step t c) cs (step-IsValid t c v)

new_request_tracker-IsValid : (max ttl : ℤ) → IsValid (new_request_tracker max ttl)
unfolding new_request_tracker positive_or
new_request_tracker-IsValid max ttl = record {
  room = ground arith;
  bounded = ground arith;
  distinct = tt;
  keyed = tt;
}

-- After any history, and whatever the arguments of the constructor, the tracker keeps no more than its
-- positive number of completed requests, one record for each active id, and each under its own id.
pub run-new_request_tracker-IsValid :
    (max ttl : ℤ) (cs : List Call) → IsValid (run (new_request_tracker max ttl) cs)
run-new_request_tracker-IsValid max ttl cs =
    run-IsValid (new_request_tracker max ttl) cs (new_request_tracker-IsValid max ttl)
