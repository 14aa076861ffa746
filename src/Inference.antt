-- ===== src/Inference.antt =====
-- pkg/worker/inference_stats.go: the throughput of each model over a rolling window. Times are
-- nanoseconds on the clock of the calls, and the mutex makes each method one step.
pub mod Sums
pub mod Window
pub mod Listing
mod Examples
use infermesh.Prelude.{
  ℕ, zero, suc, ◌+◌, String, Bool, true, false, ◌&&◌, Option, none, some, List, [], ◌∷◌, ◌++◌, ltb,
  str_eq, if◌then◌else◌, drop, count_old, map, Map, insert, ℤ, pos, ◌+ℤ◌, int_ltb, int_leb,
  pos_part,
}
use infermesh.Floats.{Float64}
use infermesh.Protocol.{InferenceStatsSnapshot}

-- 10 minutes.
abbrev pub default_inference_window : ℤ
default_inference_window = pos 600000000000

pub record InferenceSample : Type 0 where
  pub model : String
  pub prompt_tokens : ℤ
  pub completion_tokens : ℤ
  pub ttft : ℤ
  pub total : ℤ
  pub when : ℕ

-- The window is positive, so that it is a natural number.
pub record InferenceTracker : Type 0 where
  pub window : ℕ
  pub samples : List InferenceSample

unfoldable pub new_inference_tracker : ℤ → InferenceTracker
new_inference_tracker window = record {
  window = pos_part (if int_leb window (pos 0) then default_inference_window else window);
  samples = [];
}

-- `when.Before(now - window)` is `when + window < now`; count_old is the loop over `i`.
unfoldable pub prune_locked : ℕ → InferenceTracker → InferenceTracker
prune_locked now t = record t {
  samples = drop (count_old InferenceSample.when t.window now t.samples) t.samples;
}

-- Negative counts are clamped to zero.
abbrev pub clamped : ℤ → ℤ
clamped n = if int_ltb n (pos 0) then pos 0 else n

unfoldable pub record_sample : String → ℤ → ℤ → ℤ → ℤ → ℕ → InferenceTracker → InferenceTracker
unfolding prune_locked
record_sample model prompt_tokens completion_tokens ttft total now t = prune_locked now (record t {
  samples =
      t.samples
      ++ record {
        model = model;
        prompt_tokens = clamped prompt_tokens;
        completion_tokens = clamped completion_tokens;
        ttft = ttft;
        total = total;
        when = now;
      }
        ∷ [];
})

-- The variables of the first loop of `aggregate`.
pub record Totals : Type 0 where
  pub prompt_total : ℤ
  pub completion_total : ℤ
  pub ttft_sum : ℤ
  pub n : ℕ

unfoldable pub total_loop : String → Totals → List InferenceSample → Totals
total_loop model t [] = t
total_loop model t (s ∷ ss) =
    total_loop model
      (if str_eq s.model model
        then record {
          prompt_total = t.prompt_total +ℤ s.prompt_tokens;
          completion_total = t.completion_total +ℤ s.completion_tokens;
          ttft_sum = t.ttft_sum +ℤ s.ttft;
          n = suc t.n;
        }
        else t)
      ss

-- The second loop of `aggregate`: the tokens and the time.
unfoldable pub speed_loop : String → ℤ × ℤ → List InferenceSample → ℤ × ℤ
speed_loop model (tokens, time) [] = (tokens, time)
speed_loop model (tokens, time) (s ∷ ss) =
    speed_loop model
      (if str_eq s.model model
        then (if int_leb s.total (pos 0)
            then (tokens, time)
            else (tokens +ℤ s.completion_tokens, time +ℤ s.total))
        else (tokens, time))
      ss

unfoldable pub has_sample : String → List InferenceSample → Bool
has_sample model [] = false
has_sample model (s ∷ ss) = if str_eq s.model model then true else has_sample model ss

-- The keys of the map that `Snapshots` collects.
unfoldable pub collect_models : Map {0} Unit → List InferenceSample → Map {0} Unit
collect_models models [] = models
collect_models models (s ∷ ss) = collect_models (insert s.model tt models) ss

-- `seconds` is the method Seconds of time.Duration.
module _ (fl : Float64) (seconds : ℤ → Float64.Val fl) where
  open fl use {Val, dec, of_int, div}

  -- The end of `aggregate`, after its loops; the last argument is `n`.
  unfoldable pub averages : String → Totals → ℤ × ℤ → ℕ → InferenceStatsSnapshot Val
  averages model t (tokens, time) zero = record {
    model = model;
    tokens_per_second = dec 0 0;
    avg_ttft_ms = dec 0 0;
    avg_prompt_tokens = dec 0 0;
    avg_completion_tokens = dec 0 0;
    samples = pos 0;
  }
  averages model t (tokens, time) (suc k) = record {
    model = model;
    tokens_per_second =
        if int_ltb (pos 0) time && int_ltb (pos 0) tokens
        then div (of_int tokens) (seconds time)
        else dec 0 0;
    avg_ttft_ms = div (div (of_int t.ttft_sum) (of_int (pos (suc k)))) (of_int (pos 1000000));
    avg_prompt_tokens = div (of_int t.prompt_total) (of_int (pos (suc k)));
    avg_completion_tokens = div (of_int t.completion_total) (of_int (pos (suc k)));
    samples = pos (suc k);
  }

  unfoldable pub aggregate : List InferenceSample → String → InferenceStatsSnapshot Val
  unfolding total_loop speed_loop averages
  aggregate samples model =
      let t =
        total_loop model
          (record { prompt_total = pos 0; completion_total = pos 0; ttft_sum = pos 0; n = 0 })
          samples in
      averages model t (speed_loop model (pos 0, pos 0) samples) t.n

  -- `Snapshot` at time `now`: the tracker after the call, and the snapshot where `ok` is true.
  unfoldable pub snapshot :
      String → ℕ → InferenceTracker → InferenceTracker × Option (InferenceStatsSnapshot Val)
  unfolding prune_locked has_sample aggregate
  snapshot model now t =
      let t' = prune_locked now t in
      (t', if has_sample model t'.samples then some (aggregate t'.samples model) else none)

  -- The loop of `Snapshots` over the map.
  unfoldable pub aggregate_each :
      List InferenceSample → Map {0} Unit → List (InferenceStatsSnapshot Val)
  unfolding aggregate
  aggregate_each samples [] = []
  aggregate_each samples ((model, u) ∷ models) =
      aggregate samples model ∷ aggregate_each samples models

  -- `Snapshots` at time `now`; `sort` stands for sort.Slice.
  unfoldable pub snapshots :
      (List (InferenceStatsSnapshot Val) → List (InferenceStatsSnapshot Val))
      → ℕ
      → InferenceTracker
      → InferenceTracker × List (InferenceStatsSnapshot Val)
  unfolding prune_locked aggregate_each collect_models
  snapshots sort now t =
      let t' = prune_locked now t in
      (t', sort (aggregate_each t'.samples (collect_models [] t'.samples)))

-- The calls of a tracker; `reads` stands for Snapshot, Snapshots and Prune, which change it alike.
pub data Call : Type 0 where
  records : String → ℤ → ℤ → ℤ → ℤ → ℕ → Call
  reads : ℕ → Call

unfoldable pub step : InferenceTracker → Call → InferenceTracker
unfolding record_sample prune_locked
step t (records model prompt_tokens completion_tokens ttft total now) =
    record_sample model prompt_tokens completion_tokens ttft total now t
step t (reads now) = prune_locked now t

unfoldable pub run : InferenceTracker → List Call → InferenceTracker
run t [] = t
run t (call ∷ calls) = run (step t call) calls
