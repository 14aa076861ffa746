-- ===== src/Inference/Sums.antt =====
-- The two loops of `aggregate` of pkg/worker/inference_stats.go against sums over the samples of one
-- model.
use infermesh.Prelude.{
  ℕ, suc, ◌+◌, ◌≡◌, refl, ◌∙◌, ap, sym, String, Bool, true, false, ◌&&◌, Option, none, some, List,
  [], ◌∷◌, arith, str_eq, if◌then◌else◌, Bool-cases, inl, inr, length, filter_by, map, ℤ, pos,
  negsuc, ◌+ℤ◌, int_ltb, int_leb,
}
use infermesh.Floats.{Float64}
use infermesh.Protocol.{InferenceStatsSnapshot}
use infermesh.Inference.{
  InferenceSample, Totals, total_loop, speed_loop, has_sample, averages, aggregate,
}

unfoldable pub sum : List ℤ → ℤ
sum [] = pos 0
sum (x ∷ xs) = x +ℤ sum xs

-- A sample is of the model.
abbrev pub of_model : String → InferenceSample → Bool
of_model model s = str_eq s.model model

-- A sample took time.
abbrev pub took_time : InferenceSample → Bool
took_time s = int_ltb (pos 0) s.total

+ℤ_assoc : (a b c : ℤ) → (a +ℤ b) +ℤ c ≡ a +ℤ (b +ℤ c)
+ℤ_assoc (pos a) (pos b) (pos c) = ground arith
+ℤ_assoc (pos a) (pos b) (negsuc c) = ground arith
+ℤ_assoc (pos a) (negsuc b) (pos c) = ground arith
+ℤ_assoc (pos a) (negsuc b) (negsuc c) = ground arith
+ℤ_assoc (negsuc a) (pos b) (pos c) = ground arith
+ℤ_assoc (negsuc a) (pos b) (negsuc c) = ground arith
+ℤ_assoc (negsuc a) (negsuc b) (pos c) = ground arith
+ℤ_assoc (negsuc a) (negsuc b) (negsuc c) = ground arith

+ℤ_zero : (a : ℤ) → a +ℤ pos 0 ≡ a
+ℤ_zero (pos a) = ground arith
+ℤ_zero (negsuc a) = ground arith

zero_+ℤ : (a : ℤ) → pos 0 +ℤ a ≡ a
zero_+ℤ (pos a) = ground arith
zero_+ℤ (negsuc a) = ground arith

-- The totals, from what the variables hold.
add_totals : Totals → List InferenceSample → Totals
add_totals t xs = record {
  prompt_total = t.prompt_total +ℤ sum (map InferenceSample.prompt_tokens xs);
  completion_total = t.completion_total +ℤ sum (map InferenceSample.completion_tokens xs);
  ttft_sum = t.ttft_sum +ℤ sum (map InferenceSample.ttft xs);
  n = t.n + length xs;
}

abbrev plus_sample : Totals → InferenceSample → Totals
plus_sample t s = record {
  prompt_total = t.prompt_total +ℤ s.prompt_tokens;
  completion_total = t.completion_total +ℤ s.completion_tokens;
  ttft_sum = t.ttft_sum +ℤ s.ttft;
  n = suc t.n;
}

totals_of : ℤ → ℤ → ℤ → ℕ → Totals
totals_of a b c n = record { prompt_total = a; completion_total = b; ttft_sum = c; n = n }

add_totals-nil : (t : Totals) → t ≡ add_totals t []
unfolding add_totals totals_of sum
add_totals-nil t = sym (
    rw (+ℤ_zero t.prompt_total, +ℤ_zero t.completion_total, +ℤ_zero t.ttft_sum)
      (ap (totals_of t.prompt_total t.completion_total t.ttft_sum) (omega arith)))

add_totals-cons :
    (t : Totals) (s : InferenceSample) (xs : List InferenceSample)
    → add_totals (plus_sample t s) xs ≡ add_totals t (s ∷ xs)
unfolding add_totals totals_of sum
add_totals-cons t s xs =
    rw
      (
        +ℤ_assoc t.prompt_total s.prompt_tokens (sum (map InferenceSample.prompt_tokens xs)),
        +ℤ_assoc t.completion_total s.completion_tokens
            (sum (map InferenceSample.completion_tokens xs)),
        +ℤ_assoc t.ttft_sum s.ttft (sum (map InferenceSample.ttft xs)),
      )
      (ap (totals_of _ _ _) (omega arith))

-- The totals of some samples.
sums_of : List InferenceSample → Totals
sums_of xs = record {
  prompt_total = sum (map InferenceSample.prompt_tokens xs);
  completion_total = sum (map InferenceSample.completion_tokens xs);
  ttft_sum = sum (map InferenceSample.ttft xs);
  n = length xs;
}

add_totals-zero :
    (xs : List InferenceSample)
    → add_totals
        (record { prompt_total = pos 0; completion_total = pos 0; ttft_sum = pos 0; n = 0 })
        xs
      ≡ sums_of xs
unfolding add_totals sums_of totals_of
add_totals-zero xs =
    rw
      (
        zero_+ℤ (sum (map InferenceSample.prompt_tokens xs)),
        zero_+ℤ (sum (map InferenceSample.completion_tokens xs)),
        zero_+ℤ (sum (map InferenceSample.ttft xs)),
      )
      (ap (totals_of _ _ _) (omega arith))

total_loop-sum :
    (model : String) (t : Totals) (xs : List InferenceSample)
    → total_loop model t xs ≡ add_totals t (filter_by (of_model model) xs)
unfolding total_loop
total_loop-sum model t [] = add_totals-nil t
total_loop-sum model t (s ∷ ss) = elim (Bool-cases (str_eq s.model model)) [
  | inl same ↦ rw same (
      total_loop-sum model (plus_sample t s) ss
      ∙ add_totals-cons t s (filter_by (of_model model) ss))
  | inr other ↦ rw other (total_loop-sum model t ss)
]

abbrev timed : List InferenceSample → List InferenceSample
timed xs = filter_by took_time xs

took_time_not : (s : InferenceSample) → int_leb s.total (pos 0) ≡ true → took_time s ≡ false
took_time_not s h = ground arith

took_time_lem : (s : InferenceSample) → int_leb s.total (pos 0) ≡ false → took_time s ≡ true
took_time_lem s h = ground arith

speed_loop-sum :
    (model : String) (tokens time : ℤ) (xs : List InferenceSample)
    → speed_loop model (tokens, time) xs ≡ (
      tokens +ℤ sum (map InferenceSample.completion_tokens (timed (filter_by (of_model model) xs))),
      time +ℤ sum (map InferenceSample.total (timed (filter_by (of_model model) xs))),
    )
unfolding speed_loop sum
speed_loop-sum model tokens time [] = sym (rw (+ℤ_zero tokens, +ℤ_zero time) refl)
speed_loop-sum model tokens time (s ∷ ss) = elim (Bool-cases (str_eq s.model model)) [
  | inl same ↦ elim (Bool-cases (int_leb s.total (pos 0))) [
    | inl none_taken ↦
        rw (same, none_taken, took_time_not s none_taken) (speed_loop-sum model tokens time ss)
    | inr some_taken ↦
        rw (same, some_taken, took_time_lem s some_taken)
          (speed_loop-sum model (tokens +ℤ s.completion_tokens) (time +ℤ s.total) ss
            ∙ rw
                (
                  +ℤ_assoc tokens s.completion_tokens (
                      sum (
                        map InferenceSample.completion_tokens
                          (timed (filter_by (of_model model) ss)))),
                  +ℤ_assoc time s.total
                      (sum (map InferenceSample.total (timed (filter_by (of_model model) ss)))),
                )
                refl)
  ]
  | inr other ↦ rw other (speed_loop-sum model tokens time ss)
]

pub has_sample-filter :
    (model : String) (xs : List InferenceSample)
    → has_sample model xs ≡ elim (filter_by (of_model model) xs) [ [] ↦ false | s ∷ ss ↦ true ]
unfolding has_sample
has_sample-filter model [] = refl
has_sample-filter model (s ∷ ss) = ground (arith, has_sample-filter model ss)

module _ (fl : Float64) (seconds : ℤ → Float64.Val fl) where
  open fl use {Val, dec, of_int, div}

  -- Tokens by seconds, over the samples that took time.
  abbrev pub rate : ℤ → ℤ → Val
  rate tokens time =
      if int_ltb (pos 0) time && int_ltb (pos 0) tokens
      then div (of_int tokens) (seconds time)
      else dec 0 0

  -- The mean of `n` numbers from their sum.
  abbrev pub mean : ℤ → ℕ → Val
  mean total n = div (of_int total) (of_int (pos n))

  -- What a client is told of the samples of one model.
  abbrev pub summary : String → List InferenceSample → InferenceStatsSnapshot Val
  summary model xs = record {
    model = model;
    tokens_per_second =
        rate (sum (map InferenceSample.completion_tokens (filter_by took_time xs)))
          (sum (map InferenceSample.total (filter_by took_time xs)));
    avg_ttft_ms = div (mean (sum (map InferenceSample.ttft xs)) (length xs)) (of_int (pos 1000000));
    avg_prompt_tokens = mean (sum (map InferenceSample.prompt_tokens xs)) (length xs);
    avg_completion_tokens = mean (sum (map InferenceSample.completion_tokens xs)) (length xs);
    samples = pos (length xs);
  }

  abbrev pub summary_if_any : String → List InferenceSample → Option (InferenceStatsSnapshot Val)
  summary_if_any model [] = none
  summary_if_any model (s ∷ ss) = some (summary model (s ∷ ss))

  -- The end of `aggregate`, where there is a sample of the model.
  averages-summary :
      (model : String) (x : InferenceSample) (xs : List InferenceSample) (t : Totals) (v : ℤ × ℤ)
      → t ≡ sums_of (x ∷ xs)
      → v ≡ (
        sum (map InferenceSample.completion_tokens (timed (x ∷ xs))),
        sum (map InferenceSample.total (timed (x ∷ xs))),
      )
      → averages fl seconds model t v t.n ≡ summary model (x ∷ xs)
  unfolding averages sums_of
  averages-summary model x xs t v p q = rw (p, q) refl

  pub aggregate-summary :
      (model : String) (xs : List InferenceSample) (s : InferenceSample) (ss : List InferenceSample)
      → filter_by (of_model model) xs ≡ s ∷ ss
      → aggregate fl seconds xs model ≡ summary model (s ∷ ss)
  unfolding aggregate
  aggregate-summary model xs s ss e =
      averages-summary model s ss _ _
        (total_loop-sum model _ xs ∙ ap (add_totals _) e ∙ add_totals-zero (s ∷ ss))
        (speed_loop-sum model (pos 0) (pos 0) xs
          ∙ rw
              (
                e,
                zero_+ℤ (sum (map InferenceSample.completion_tokens (timed (s ∷ ss)))),
                zero_+ℤ (sum (map InferenceSample.total (timed (s ∷ ss)))),
              )
              refl)
