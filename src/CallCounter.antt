-- ===== src/CallCounter.antt =====
-- pkg/router/call_counter.go: calls of each model over a rolling window. Times are nanoseconds on the
-- clock of the calls, and the mutex makes each method one step. The goroutine of `Start` prunes at
-- times of its own: a `ticks` call. Counts are natural numbers and do not wrap.
pub mod Counts
pub mod Window
mod Examples
use infermesh.Prelude.{
  ℕ, suc, ◌+◌, ◌-◌, String, Option, none, some, List, [], ◌∷◌, ◌++◌, ltb, leb, if◌then◌else◌, Map,
  lookup, insert, delete, true, false,
}

pub record CallEvent : Type 0 where
  pub model : String
  pub when : ℕ

pub record CallCounter : Type 0 where
  pub counts : Map ℕ
  pub window : ℕ
  pub events : List CallEvent

unfoldable pub new_call_counter : ℕ → CallCounter
new_call_counter window = record { counts = []; window = window; events = [] }

-- The body of the loop of `prune`, at what the map holds for the model.
decrement_from : Option ℕ → String → Map ℕ → Map ℕ
decrement_from none model counts = counts
decrement_from (some count) model counts =
    if leb count 1 then delete model counts else insert model (count - 1) counts

decrement : String → Map ℕ → Map ℕ
unfolding decrement_from
decrement model counts = decrement_from (lookup model counts) model counts

-- The loop of `prune`; `when.Before(now - window)` is `when + window < now`.
prune_events : ℕ → ℕ → List CallEvent → Map ℕ → List CallEvent × Map ℕ
prune_events now window [] counts = ([], counts)
prune_events now window (e ∷ es) counts = elim (ltb (e.when + window) now) [
  | true ↦ prune_events now window es (decrement e.model counts)
  | false ↦ (e ∷ es, counts)
]

unfoldable pub prune : ℕ → CallCounter → CallCounter
unfolding prune_events decrement
prune now c =
    let (events, counts) = prune_events now c.window c.events c.counts in
    record c { events = events; counts = counts }

-- `m[k]` reads 0 for a missing key.
read : String → Map ℕ → ℕ
read model counts = elim (lookup model counts) [ none ↦ 0 | some n ↦ n ]

-- `Record` at time `now`.
unfoldable pub record_call : String → ℕ → CallCounter → CallCounter
unfolding prune read
record_call model now c = prune now (record c {
  events = c.events ++ record { model = model; when = now } ∷ [];
  counts = insert model (suc (read model c.counts)) c.counts;
})

-- `Snapshot` at time `now`: the counter after the call, and the counts that it returns.
unfoldable pub snapshot : ℕ → CallCounter → CallCounter × Map ℕ
unfolding prune
snapshot now c = let c' = prune now c in (c', c'.counts)

pub data Call : Type 0 where
  records : String → ℕ → Call
  snapshots ticks : ℕ → Call

unfoldable pub step : CallCounter → Call → CallCounter
unfolding record_call snapshot prune
step c (records model now) = record_call model now c
step c (snapshots now) = (snapshot now c).0
step c (ticks now) = prune now c

unfoldable pub run : CallCounter → List Call → CallCounter
run c [] = c
run c (call ∷ calls) = run (step c call) calls
