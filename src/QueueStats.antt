-- ===== src/QueueStats.antt =====
-- pkg/router/queue_stats.go: the reservoir of queue waits and its percentiles. Waits are nanoseconds and
-- not negative; the valid entries of the array are a list, and the draw of rand.Int63n and sort.Slice
-- are arguments.
pub mod Sampling
pub mod Percentiles
mod Examples
use infermesh.Prelude.{
  ℕ, zero, suc, ◌+◌, ◌-◌, ◌*◌, ◌/◌, Bool, true, false, Option, none, some, List, [], ◌∷◌, ◌++◌, ltb,
  leb, ◌==◌, if◌then◌else◌, length, set, get_elem?,
}

abbrev pub queue_stats_capacity : ℕ
queue_stats_capacity = 1024

pub record Reservoir : Type 0 where
  pub samples : List ℕ
  pub count : ℕ

unfoldable pub new_reservoir : Reservoir
new_reservoir = record { samples = []; count = 0 }

-- The reservoir with room for another wait, and the full one.
abbrev pub filled : ℕ → Reservoir → Reservoir
filled d r = record { samples = r.samples ++ d ∷ []; count = r.count + 1 }

abbrev pub replaced : Bool → ℕ → ℕ → Reservoir → Reservoir
replaced true d draw r = record { samples = set r.samples draw d; count = r.count + 1 }
replaced false d draw r = record { samples = r.samples; count = r.count + 1 }

-- `record`; `draw` is the value of rng.Int63n(i + 1), which only the full reservoir asks for.
unfoldable pub record_wait : ℕ → ℕ → Reservoir → Reservoir
record_wait d draw r =
    if ltb r.count queue_stats_capacity
    then filled d r
    else replaced (ltb draw queue_stats_capacity) d draw r

-- `idx`
unfoldable pub idx : ℕ → ℕ → ℕ
idx n p = if n == 0 then 0 else let i = n * p / 100 in if leb n i then n - 1 else i

-- An element of a slice; the index of `percentiles` is within its bounds.
unfoldable pub at : List ℕ → ℕ → ℕ
at [] i = 0
at (x ∷ xs) zero = x
at (x ∷ xs) (suc i) = at xs i

-- `percentiles`, over the snapshot of the samples.
unfoldable pub percentiles_of : (List ℕ → List ℕ) → List ℕ → ℕ × ℕ × ℕ
unfolding idx at
percentiles_of sort [] = (0, 0, 0)
percentiles_of sort (x ∷ xs) =
    let sorted = sort (x ∷ xs) in
    let n = length sorted in (at sorted (idx n 50), at sorted (idx n 95), at sorted (idx n 99))

unfoldable pub percentiles : (List ℕ → List ℕ) → Reservoir → ℕ × ℕ × ℕ
unfolding percentiles_of
percentiles sort r = percentiles_of sort r.samples

-- A history of waits, each with its draw.
unfoldable pub run : Reservoir → List (ℕ × ℕ) → Reservoir
unfolding record_wait
run r [] = r
run r ((d, draw) ∷ waits) = run (record_wait d draw r) waits
