-- ===== src/Estimator/Idle.antt =====
-- pkg/worker/concurrency_estimator.go: the ticks of a worker that gets no requests.
use infermesh.Prelude.{
  ℕ, ◌+◌, ◌-◌, ◌≤◌, ◌≡◌, refl, ◌∙◌, arith, ltb, leb, Bool, true, false, ◌&&◌, some, List, [], ◌∷◌,
  map, Bool-cases, inl, inr, length,
}
use infermesh.Estimator.{
  ConcurrencyEstimator, Floats, prune, last_200, lower_if, shed_429, shed_spike, spikes, recover,
  settled, notify_if, recompute, ticks, step, run,
}
use infermesh.Estimator.Bounds.{notify_if-cap}

-- The samples of `k` are those of `h`.
record SameSamples (h k : ConcurrencyEstimator) : Type 0 where
  pub latencies_same : k.latencies ≡ h.latencies
  pub baseline_same : k.baseline_latency ≡ h.baseline_latency

lower_if-SameSamples :
    (b : Bool) (now : ℕ) (e : ConcurrencyEstimator) → SameSamples e (lower_if b now e)
unfolding lower_if
lower_if-SameSamples b now e = elim (Bool-cases (b && ltb 1 e.cap)) [
  | inl t ↦ rw t (record { latencies_same = refl; baseline_same = refl })
  | inr t ↦ rw t (record { latencies_same = refl; baseline_same = refl })
]

recover-SameSamples : (now : ℕ) (e : ConcurrencyEstimator) → SameSamples e (recover now e)
unfolding recover
recover-SameSamples now e = record { latencies_same = ground arith; baseline_same = ground arith }

notify_if-SameSamples : (c : ℕ) (e : ConcurrencyEstimator) → SameSamples e (notify_if c e)
unfolding notify_if
notify_if-SameSamples c e = record { latencies_same = ground arith; baseline_same = ground arith }

same_trans : (h k l : ConcurrencyEstimator) → SameSamples h k → SameSamples k l → SameSamples h l
same_trans h k l a b = record {
  latencies_same = b.latencies_same ∙ a.latencies_same;
  baseline_same = b.baseline_same ∙ a.baseline_same;
}

prune-SameSamples :
    (now : ℕ) (e : ConcurrencyEstimator) → length e.latencies ≤ 200 → SameSamples e (prune now e)
unfolding prune last_200
prune-SameSamples now e h = record { latencies_same = ground arith; baseline_same = refl }

spikes-SameSamples :
    (floats : Floats) (h k : ConcurrencyEstimator)
    → SameSamples h k
    → spikes floats k ≡ spikes floats h
unfolding spikes
spikes-SameSamples floats h k s = rw (s.latencies_same, s.baseline_same) refl

shed_429-SameSamples :
    (now : ℕ) (e : ConcurrencyEstimator)
    → length e.latencies ≤ 200
    → SameSamples e (shed_429 now (prune now e))
unfolding shed_429
shed_429-SameSamples now e h =
    same_trans e (prune now e) _ (prune-SameSamples now e h)
      (lower_if-SameSamples (leb 2 (length (prune now e).window_429)) now (prune now e))

recompute-SameSamples :
    (floats : Floats) (now : ℕ) (e : ConcurrencyEstimator)
    → length e.latencies ≤ 200
    → SameSamples e (recompute floats now e)
unfolding recompute shed_spike
recompute-SameSamples floats now e h =
    let one = shed_429 now (prune now e) in
    let two = shed_spike floats now one in
    same_trans e one _ (shed_429-SameSamples now e h) (
      same_trans one two _ (lower_if-SameSamples (spikes floats one) now one) (
        same_trans two (recover now two) _ (recover-SameSamples now two)
          (notify_if-SameSamples e.cap (recover now two))))

recover_bound :
    (now n : ℕ) (e : ConcurrencyEstimator)
    → settled now e.last_cap_changed ≡ false
    → e.cap ≤ n
    → (recover now e).cap ≤ n
unfolding recover
recover_bound now n e s h = ground arith

one_more :
    (now : ℕ) (e : ConcurrencyEstimator) → e.cap ≤ 1 → (recover now e).cap ≤ 2 + (e.cap - 2 - 1)
unfolding recover
one_more now e h = ground arith

-- A step down puts off the recovery.
recover-lowered :
    (now : ℕ) (e : ConcurrencyEstimator)
    → (recover now (lower_if true now e)).cap ≤ 2 + (e.cap - 2 - 1)
unfolding recover lower_if settled
recover-lowered now e = elim (Bool-cases (ltb 1 e.cap)) [
  | inl more ↦ rw more (
      recover_bound now (2 + (e.cap - 2 - 1))
        (record e { cap = e.cap - 1; last_cap_changed = some now }) (unfold settled in ground arith)
        (ground arith))
  | inr least ↦ rw least (one_more now e (ground arith))
]

lower_if_bound : (b : Bool) (now : ℕ) (e : ConcurrencyEstimator) → (lower_if b now e).cap ≤ e.cap
unfolding lower_if
lower_if_bound b now e = ground arith

-- A tick of an estimator whose samples spike.
recompute-spike :
    (floats : Floats) (now : ℕ) (e : ConcurrencyEstimator)
    → length e.latencies ≤ 200
    → spikes floats e ≡ true
    → (recompute floats now e).cap ≤ 2 + (e.cap - 2 - 1)
unfolding recompute shed_spike
recompute-spike floats now e h spike =
    let one = shed_429 now (prune now e) in
    let still : spikes floats one ≡ true =
      spikes-SameSamples floats e one (shed_429-SameSamples now e h) ∙ spike in
    let fewer : one.cap ≤ e.cap =
      unfold shed_429 prune in
      lower_if_bound (leb 2 (length (prune now e).window_429)) now (prune now e) in
    rw (notify_if-cap, still) (omega (arith, recover-lowered now one, fewer))

-- While no request comes, an estimator whose latest samples spike (the 95th percentile of at most 200
-- latencies is above twice the baseline) loses a step at each tick, however long the worker is idle and
-- whatever the times of the ticks, until its cap is at most 2; there it stays.
run-ticks_spike :
    (floats : Floats) (times : List ℕ) (e : ConcurrencyEstimator)
    → length e.latencies ≤ 200
    → spikes floats e ≡ true
    → (run floats e (map ticks times)).cap ≤ 2 + (e.cap - 2 - length times)
unfolding run step
run-ticks_spike floats [] e h spike = omega arith
run-ticks_spike floats (now ∷ times) e h spike =
    let next = recompute floats now e in
    let same = recompute-SameSamples floats now e h in
    omega (
      arith,
      recompute-spike floats now e h spike,
      run-ticks_spike floats times next (rw same.latencies_same h)
          (spikes-SameSamples floats e next same ∙ spike),
    )
