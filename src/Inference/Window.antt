-- ===== src/Inference/Window.antt =====
-- The tracker of pkg/worker/inference_stats.go against its purpose: a snapshot summarises exactly the
-- samples of a model recorded within the window, whatever happened in between.
use mathlib.Core.List.{append_assoc, append-nil}
use native.Mathlib.Nat.{le_trans}
use infermesh.Prelude.{
  ℕ, ◌≤◌, ◌≡◌, refl, ap, String, none, some, List, [], ◌∷◌, ◌++◌, arith, if◌then◌else◌, All,
  All-map, All-append, filter_by, within_window, OrderedFrom, drop-count_old, OrderedFrom-append,
  within_window-append, ℤ,
}
use infermesh.Floats.{Float64}
use infermesh.Inference.{
  InferenceSample, InferenceTracker, new_inference_tracker, prune_locked, clamped, record_sample,
  has_sample, aggregate, snapshot, Call, records, reads, step, run,
}
use infermesh.Inference.Sums.{of_model, has_sample-filter, summary_if_any, aggregate-summary}

-- What is recorded: negative counts are zero.
abbrev pub sample_of : String → ℤ → ℤ → ℤ → ℤ → ℕ → InferenceSample
sample_of model prompt_tokens completion_tokens ttft total now = record {
  model = model;
  prompt_tokens = clamped prompt_tokens;
  completion_tokens = clamped completion_tokens;
  ttft = ttft;
  total = total;
  when = now;
}

-- The samples of a history that `Record` was given.
abbrev pub recorded : List Call → List InferenceSample
recorded [] = []
recorded (records model prompt_tokens completion_tokens ttft total now ∷ cs) =
    sample_of model prompt_tokens completion_tokens ttft total now ∷ recorded cs
recorded (reads now ∷ cs) = recorded cs

abbrev pub time : Call → ℕ
time (records model prompt_tokens completion_tokens ttft total now) = now
time (reads now) = now

-- The calls of a history take place in order of time, from `lo` up to `hi`.
abbrev pub Chronological : ℕ → List Call → ℕ → Type 0
Chronological lo [] hi = lo ≤ hi
Chronological lo (c ∷ cs) hi = (lo ≤ time c) × Chronological (time c) cs hi

-- The samples in the window that ends now.
abbrev pub live : ℕ → ℕ → List InferenceSample → List InferenceSample
live w now xs = filter_by (within_window InferenceSample.when w now) xs

-- The tracker `t` at time `last`, after the samples `seen`.
record Tracks (w last : ℕ) (seen : List InferenceSample) (t : InferenceTracker) : Type 0 where
  same_window : t.window ≡ w
  ordered : OrderedFrom InferenceSample.when 0 seen
  past : All (λ x. x.when ≤ last) seen
  kept : t.samples ≡ live w last seen

prune_locked-Tracks :
    (w last now : ℕ) (seen : List InferenceSample) (t : InferenceTracker)
    → last ≤ now
    → Tracks w last seen t
    → Tracks w now seen (prune_locked now t)
prune_locked-Tracks w last now seen t h k = record {
  same_window = unfold prune_locked in k.same_window;
  ordered = k.ordered;
  past = All-map (λ x p. le_trans p h) seen k.past;
  kept =
      unfold prune_locked in
      rw (k.kept, k.same_window)
        (drop-count_old InferenceSample.when w last now 0 seen k.ordered h);
}

-- A sample that is appended now, before the pruning.
append-Tracks :
    (w last : ℕ) (seen : List InferenceSample) (t : InferenceTracker) (x : InferenceSample)
    → last ≤ x.when
    → Tracks w last seen t
    → Tracks w x.when
        (seen ++ x ∷ [])
        (prune_locked x.when (record t { samples = t.samples ++ x ∷ [] }))
append-Tracks w last seen t x h k =
    let ordered =
      OrderedFrom-append InferenceSample.when 0 last seen x k.ordered k.past (omega arith) h in
    record {
      same_window = unfold prune_locked in k.same_window;
      ordered = ordered;
      past =
          All-append (λ y. y.when ≤ x.when) seen (x ∷ [])
            (All-map (λ y q. le_trans q h) seen k.past) (omega arith);
      kept =
          unfold prune_locked in
          rw
            (
              within_window-append InferenceSample.when w last seen t.samples x h k.kept,
              k.same_window,
            )
            (drop-count_old InferenceSample.when w last x.when 0 (seen ++ x ∷ []) ordered h);
    }

run-Tracks :
    (w last hi : ℕ) (seen : List InferenceSample) (cs : List Call) (t : InferenceTracker)
    → Chronological last cs hi
    → Tracks w last seen t
    → (end : ℕ) × (end ≤ hi) × Tracks w end (seen ++ recorded cs) (run t cs)
unfolding run step record_sample
run-Tracks w last hi seen [] t h k = (last, h, rw append-nil k)
run-Tracks w last hi seen (records model prompt completion ttft total now ∷ cs) t h k =
    let x = sample_of model prompt completion ttft total now in
    let (end, l, r) =
      run-Tracks w now hi (seen ++ x ∷ []) cs
        (prune_locked now (record t { samples = t.samples ++ x ∷ [] })) h.1
        (append-Tracks w last seen t x h.0 k) in
    (end, l, rw append_assoc at r)
run-Tracks w last hi seen (reads now ∷ cs) t h k =
    run-Tracks w now hi seen cs (prune_locked now t) h.1
      (prune_locked-Tracks w last now seen t h.0 k)

new-Tracks :
    (window : ℤ) → Tracks (new_inference_tracker window).window 0 [] (new_inference_tracker window)
unfolding new_inference_tracker
new-Tracks window = record { same_window = refl; ordered = tt; past = tt; kept = refl }

-- What is left of the samples by a call at `now`, after a history.
pub run-live :
    (window : ℤ) (now : ℕ) (cs : List Call)
    → Chronological 0 cs now
    → (prune_locked now (run (new_inference_tracker window) cs)).samples
      ≡ live (new_inference_tracker window).window now (recorded cs)
run-live window now cs h =
    let w = (new_inference_tracker window).window in
    let (last, l, r) =
      run-Tracks w 0 now [] cs (new_inference_tracker window) h (new-Tracks window) in
    (prune_locked-Tracks w last now (recorded cs) _ l r).kept

module _ (fl : Float64) (seconds : ℤ → Float64.Val fl) where
  open fl use {Val}

  answer :
      (model : String) (xs ys : List InferenceSample)
      → filter_by (of_model model) xs ≡ ys
      → (if has_sample model xs then some (aggregate fl seconds xs model) else none)
        ≡ summary_if_any fl seconds model ys
  answer model xs [] e = rw (has_sample-filter model xs, e) refl
  answer model xs (s ∷ ss) e =
      rw (has_sample-filter model xs, e) (ap some (aggregate-summary fl seconds model xs s ss e))

  -- After any history of calls in order of time, a snapshot of a model is the summary of exactly its
  -- samples that were recorded within the window before the snapshot (their number, their mean counts
  -- of tokens, their mean time to the first token and the tokens by the seconds of those that took
  -- time), and there is none where no sample was recorded, however the reads in between fell.
  pub snapshot-live :
      (window : ℤ) (model : String) (now : ℕ) (cs : List Call)
      → Chronological 0 cs now
      → (snapshot fl seconds model now (run (new_inference_tracker window) cs)).1
        ≡ summary_if_any fl seconds model (
            filter_by
              (of_model model)
              (live (new_inference_tracker window).window now (recorded cs)))
  unfolding snapshot
  snapshot-live window model now cs h = rw (run-live window now cs h) (answer model _ _ refl)
