-- ===== src/RequestTracker/Recent.antt =====
-- What a snapshot of pkg/router/request_tracker.go shows of the requests that are finished.
use native.Mathlib.Nat.{le_trans}
use infermesh.Prelude.{
  ℕ, zero, suc, ◌+◌, ◌≤◌, ◌≡◌, refl, ap, String, Bool, true, false, not, Option, none, some, List,
  [], ◌∷◌, arith, ltb, length, take, filter_by, lookup, delete, ℤ, Bool-cases, inl, inr,
}
use infermesh.RequestTracker.{
  RequestRecord, RequestTracker, new_request_tracker, is_expired, keep_last, reap, prune_locked,
  begin, set_status, set_found, finish, finish_found, finished, Call, begins, sets_status, finishes,
  ticks, step, run, snapshot,
}
use infermesh.RequestTracker.Bounds.{run-new_request_tracker-IsValid}

-- The newest first, and none later than `hi`.
abbrev Newest : ℕ → List RequestRecord → Type 0
Newest hi [] = Unit
Newest hi (r ∷ rs) = (r.finished_at ≤ hi) × Newest r.finished_at rs

Newest-later : (hi now : ℕ) (rs : List RequestRecord) → hi ≤ now → Newest hi rs → Newest now rs
Newest-later hi now [] h n = tt
Newest-later hi now (r ∷ rs) h n = (le_trans n.0 h, n.1)

take-Newest : (m hi : ℕ) (rs : List RequestRecord) → Newest hi rs → Newest hi (take m rs)
take-Newest zero hi rs n = tt
take-Newest (suc m) hi [] n = tt
take-Newest (suc m) hi (r ∷ rs) n = (n.0, take-Newest m r.finished_at rs n.1)

take-all : (m : ℕ) (rs : List RequestRecord) → length rs ≤ m → take m rs ≡ rs
take-all zero [] h = refl
take-all zero (r ∷ rs) h = absurd (omega (arith, h))
take-all (suc m) [] h = refl
take-all (suc m) (r ∷ rs) h = ap (λ xs. r ∷ xs) (take-all m rs (omega (arith, h)))

-- A completed request that is not older than the time to live.
abbrev pub is_recent : ℕ → ℕ → RequestRecord → Bool
is_recent now ttl r = not (is_expired now ttl r)

filter_expired :
    (now ttl hi : ℕ) (rs : List RequestRecord)
    → Newest hi rs
    → ltb (hi + ttl) now ≡ true
    → filter_by (is_recent now ttl) rs ≡ []
filter_expired now ttl hi [] n h = refl
filter_expired now ttl hi (r ∷ rs) n h =
    ground (arith, h, filter_expired now ttl r.finished_at rs n.1)

keep_last_recent : (r : RequestRecord) (rs : List RequestRecord) → keep_last false r rs ≡ r ∷ rs
keep_last_recent r [] = refl
keep_last_recent r (x ∷ xs) = refl

reap-filter :
    (now ttl hi : ℕ) (rs : List RequestRecord)
    → Newest hi rs
    → reap now ttl rs ≡ filter_by (is_recent now ttl) rs
unfolding reap
reap-filter now ttl hi [] n = refl
reap-filter now ttl hi (r ∷ rs) n = elim (Bool-cases (is_expired now ttl r)) [
  | inl old ↦
      rw
        (
          reap-filter now ttl r.finished_at rs n.1,
          filter_expired now ttl r.finished_at rs n.1 old,
          old,
        )
        refl
  | inr young ↦
      rw (young, keep_last_recent r (reap now ttl rs))
        (ap (λ xs. r ∷ xs) (reap-filter now ttl r.finished_at rs n.1))
]

filter-Newest :
    (p : RequestRecord → Bool) (hi : ℕ) (rs : List RequestRecord)
    → Newest hi rs
    → Newest hi (filter_by p rs)
filter-Newest p hi [] n = tt
filter-Newest p hi (r ∷ rs) n = elim (Bool-cases (p r)) [
  | inl kept ↦ rw kept (n.0, filter-Newest p r.finished_at rs n.1)
  | inr gone ↦ rw gone (Newest-later r.finished_at hi _ n.0 (filter-Newest p r.finished_at rs n.1))
]

prune_locked-Newest :
    (now hi : ℕ) (t : RequestTracker)
    → Newest hi t.completed
    → Newest hi (prune_locked now t).completed
unfolding prune_locked
prune_locked-Newest now hi t n =
    rw
      (reap-filter now t.completed_ttl hi (take t.max_completed t.completed)
        (take-Newest t.max_completed hi t.completed n))
      (filter-Newest _ hi _ (take-Newest t.max_completed hi t.completed n))

-- The time of a call, or that of the call before where it has none.
abbrev pub time : ℕ → Call → ℕ
time t (begins id model worker_id worker_host kind now) = now
time t (sets_status id status) = t
time t (finishes id status now) = now
time t (ticks now) = now

-- The calls of a history take place in order of time, from `lo` up to `hi`.
abbrev pub Chronological : ℕ → List Call → ℕ → Type 0
Chronological lo [] hi = lo ≤ hi
Chronological lo (c ∷ cs) hi = (lo ≤ time lo c) × Chronological (time lo c) cs hi

finish_found-Newest :
    (id status : String) (lo now : ℕ) (o : Option RequestRecord) (t : RequestTracker)
    → lo ≤ now
    → Newest lo t.completed
    → Newest now (finish_found id status now o t).completed
unfolding finish_found
finish_found-Newest id status lo now none t h n = Newest-later lo now t.completed h n
finish_found-Newest id status lo now (some r) t h n =
    prune_locked-Newest now now
      (record t { active = delete id t.active; completed = finished status now r ∷ t.completed })
      (omega arith, Newest-later lo now t.completed h n)

set_found-completed :
    (id status : String) (o : Option RequestRecord) (t : RequestTracker)
    → (set_found id status o t).completed ≡ t.completed
unfolding set_found
set_found-completed id status none t = refl
set_found-completed id status (some r) t = refl

step-Newest :
    (lo : ℕ) (t : RequestTracker) (c : Call)
    → lo ≤ time lo c
    → Newest lo t.completed
    → Newest (time lo c) (step t c).completed
unfolding step begin set_status finish
step-Newest lo t (begins id model worker_id worker_host kind now) h n =
    Newest-later lo now t.completed h n
step-Newest lo t (sets_status id status) h n =
    rw (set_found-completed id status (lookup id t.active) t) n
step-Newest lo t (finishes id status now) h n =
    finish_found-Newest id status lo now (lookup id t.active) t h n
step-Newest lo t (ticks now) h n =
    prune_locked-Newest now now t (Newest-later lo now t.completed h n)

run-Newest :
    (lo hi : ℕ) (t : RequestTracker) (cs : List Call)
    → Chronological lo cs hi
    → Newest lo t.completed
    → Newest hi (run t cs).completed
unfolding run
run-Newest lo hi t [] h n = Newest-later lo hi t.completed h n
run-Newest lo hi t (c ∷ cs) h n =
    run-Newest (time lo c) hi (step t c) cs h.1 (step-Newest lo t c h.0 n)

-- After any history in order of time, a snapshot leaves of the completed requests exactly those that
-- are not older than the time to live, in their order.
pub snapshot_recent :
    (sort : List RequestRecord → List RequestRecord) (max ttl : ℤ) (now : ℕ) (cs : List Call)
    → Chronological 0 cs now
    → (snapshot sort now (run (new_request_tracker max ttl) cs)).0.completed
      ≡ filter_by
          (is_recent now (run (new_request_tracker max ttl) cs).completed_ttl)
          (run (new_request_tracker max ttl) cs).completed
unfolding snapshot prune_locked
snapshot_recent sort max ttl now cs h =
    let t = run (new_request_tracker max ttl) cs in
    let v = run-new_request_tracker-IsValid max ttl cs in
    let n =
      run-Newest 0 now (new_request_tracker max ttl) cs h (unfold new_request_tracker in tt) in
    rw (take-all t.max_completed t.completed v.bounded)
      (reap-filter now t.completed_ttl now t.completed n)
