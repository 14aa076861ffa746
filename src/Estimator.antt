-- ===== src/Estimator.antt =====
-- pkg/worker/concurrency_estimator.go: how many requests a worker takes at once. Times and durations
-- are nanoseconds; a time is none where the source has the zero time, which is more than any duration
-- ago. The arithmetic on float64 is the record `Floats`. The file and the timer of `persist` are left
-- out: what `LoadPersisted` read is an argument. The mutex makes each method one step.
pub mod Bounds
pub mod Idle
mod Examples
use infermesh.Prelude.{
  ℕ, zero, suc, ◌+◌, ◌-◌, ◌*◌, ◌==◌, ltb, leb, Bool, true, false, not, ◌&&◌, ◌||◌, Option, none,
  some, List, [], ◌∷◌, ◌++◌, if◌then◌else◌, length, drop, get_elem?, ℤ, pos, negsuc, int_ltb,
  pos_part,
}

abbrev pub default_init_cap : ℕ
default_init_cap = 4

abbrev pub min_cap : ℕ
min_cap = 1

abbrev pub second : ℕ
second = 1000000000

-- `smoothed b l` is 0.9 of `b` and 0.1 of `l`; `doubled` is times 2.0; `rank_95 n` is the integer of 0.95
-- times `n`.
pub record Floats : Type 0 where
  pub smoothed : ℕ → ℕ → ℕ
  pub doubled : ℕ → ℕ
  pub rank_95 : ℕ → ℕ

-- `changed` is that the channel `changedCh` holds its one token.
pub record ConcurrencyEstimator : Type 0 where
  pub cap : ℕ
  pub window_429 : List ℕ
  pub latencies : List ℕ
  pub baseline_latency : ℕ
  pub last_cap_changed : Option ℕ
  pub changed : Bool

-- `persisted` is what `LoadPersisted` returns, 0 where there is nothing.
unfoldable pub new_estimator_with_init : ℤ → ℤ → ConcurrencyEstimator
new_estimator_with_init persisted init_cap = record {
  cap =
      if int_ltb (pos 0) persisted
      then pos_part persisted
      else if int_ltb init_cap (pos min_cap)
      then min_cap
      else pos_part init_cap;
  window_429 = [];
  latencies = [];
  baseline_latency = 0;
  last_cap_changed = none;
  changed = false;
}

unfoldable pub record_request : Floats → ℕ → ℕ → ℕ → ConcurrencyEstimator → ConcurrencyEstimator
record_request floats start now status_code e =
    let lat = now - start in
    let latencies = e.latencies ++ lat ∷ [] in
    record e {
      latencies = latencies;
      baseline_latency =
          if e.baseline_latency == 0 || ltb (length latencies) 10
          then lat
          else floats.smoothed e.baseline_latency lat;
      window_429 = if status_code == 429 then e.window_429 ++ now ∷ [] else e.window_429;
    }

unfoldable pub record_circuit_open : ℕ → ConcurrencyEstimator → ConcurrencyEstimator
record_circuit_open now e =
    if e.cap == 1 then e else record e { cap = 1; last_cap_changed = some now; changed = true }

unfoldable pub record_circuit_closed : ℕ → ConcurrencyEstimator → ConcurrencyEstimator
record_circuit_closed now e =
    if e.cap == 1
    then record e { cap = default_init_cap; last_cap_changed = some now; changed = true }
    else e

-- `Cap`
unfoldable pub effective_cap : ConcurrencyEstimator → ℕ
effective_cap e = if ltb e.cap min_cap then min_cap else e.cap

-- The times within `back` before `now`.
unfoldable pub within : ℕ → ℕ → List ℕ → List ℕ
within now back [] = []
within now back (t ∷ ts) =
    let rest = within now back ts in if ltb now (t + back) then t ∷ rest else rest

unfoldable pub last_200 : List ℕ → List ℕ
last_200 ls = if ltb 200 (length ls) then drop (length ls - 200) ls else ls

-- The sorted part is held from its end: a value moves left past what is larger.
abbrev pub sift : ℕ → List ℕ → List ℕ
sift x [] = x ∷ []
sift x (y ∷ ys) = let rest = sift x ys in if ltb x y then y ∷ rest else x ∷ y ∷ ys

abbrev pub sort_onto : List ℕ → List ℕ → List ℕ
sort_onto sorted [] = sorted
sort_onto sorted (x ∷ xs) = sort_onto (sift x sorted) xs

abbrev pub or_zero : Option ℕ → ℕ
or_zero none = 0
or_zero (some n) = n

-- `percentile` for 0.95.
unfoldable pub percentile : Floats → List ℕ → ℕ
percentile floats d =
    let sorted = sort_onto [] d in
    let idx = floats.rank_95 (length d - 1) in
    or_zero (get_elem? sorted (length d - 1 - (if leb (length d) idx then length d - 1 else idx)))

unfoldable pub spikes : Floats → ConcurrencyEstimator → Bool
unfolding percentile
spikes floats e =
    leb 5 (length e.latencies)
    && ltb 0 e.baseline_latency
    && ltb (floats.doubled e.baseline_latency) (percentile floats e.latencies)

-- `now.Sub(lastCapChanged) > 60s`
unfoldable pub settled : ℕ → Option ℕ → Bool
settled now none = true
settled now (some t) = ltb (t + 60 * second) now

unfoldable pub prune : ℕ → ConcurrencyEstimator → ConcurrencyEstimator
unfolding within last_200
prune now e = record e {
  window_429 = within now (10 * second) e.window_429;
  latencies = last_200 e.latencies;
}

-- One step down, not below the least cap.
unfoldable pub lower_if : Bool → ℕ → ConcurrencyEstimator → ConcurrencyEstimator
lower_if b now e =
    if b && ltb min_cap e.cap then record e { cap = e.cap - 1; last_cap_changed = some now } else e

unfoldable pub shed_429 : ℕ → ConcurrencyEstimator → ConcurrencyEstimator
unfolding lower_if
shed_429 now e = lower_if (leb 2 (length e.window_429)) now e

unfoldable pub shed_spike : Floats → ℕ → ConcurrencyEstimator → ConcurrencyEstimator
unfolding lower_if spikes
shed_spike floats now e = lower_if (spikes floats e) now e

unfoldable pub recover : ℕ → ConcurrencyEstimator → ConcurrencyEstimator
unfolding settled within
recover now e =
    if ltb e.cap default_init_cap
      && settled now e.last_cap_changed
      && (length (within now (30 * second) e.window_429) == 0)
    then record e { cap = suc e.cap; last_cap_changed = some now }
    else e

pub notify_if : ℕ → ConcurrencyEstimator → ConcurrencyEstimator
notify_if original_cap e = if e.cap == original_cap then e else record e { changed = true }

-- The cap after `suc` is not above the default, so the source's second test has no effect.
unfoldable pub recompute : Floats → ℕ → ConcurrencyEstimator → ConcurrencyEstimator
unfolding prune shed_429 shed_spike recover notify_if
recompute floats now e =
    notify_if e.cap (recover now (shed_spike floats now (shed_429 now (prune now e))))

pub data Call : Type 0 where
  requests : ℕ → ℕ → ℕ → Call
  opens closes ticks : ℕ → Call

unfoldable pub step : Floats → ConcurrencyEstimator → Call → ConcurrencyEstimator
unfolding record_request record_circuit_open record_circuit_closed recompute
step floats e (requests start now status) = record_request floats start now status e
step floats e (opens now) = record_circuit_open now e
step floats e (closes now) = record_circuit_closed now e
step floats e (ticks now) = recompute floats now e

unfoldable pub run : Floats → ConcurrencyEstimator → List Call → ConcurrencyEstimator
unfolding step
run floats e [] = e
run floats e (c ∷ cs) = run floats (step floats e c) cs
