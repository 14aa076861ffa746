-- ===== src/Scheduler/Score.antt =====
-- `WeightedScorer` of pkg/scheduler/scheduler.go, over the interface of float64.
pub mod Eligible
use infermesh.Prelude.{
  ℕ, ◌≡◌, refl, ◌⊎◌, inl, inr, String, Bool, true, false, not, ◌&&◌, ◌||◌, Option, none, some, List,
  [], ◌∷◌, arith, str_eq, if◌then◌else◌, Bool-cases, Option-cases, ℤ, pos, int_ltb, int_leb,
}
use infermesh.Protocol.{ModelInfo}
use infermesh.Floats.{Float64, Units}
use infermesh.Scheduler.{
  ModelRequest, WorkerInfo, Error, no_matching_workers, no_capacity, worker_unavailable, Result, ok,
  err, since, default_unavailable_ttl,
}
use infermesh.Scheduler.Quantization.{is_quantization_compatible, quantization_compatibility_score}
use infermesh.Scheduler.Select.{ScoringAlgorithm}

abbrev pub default_max_queue_depth : ℤ
default_max_queue_depth = pos 10

pub record WeightedScorer (F : Type 0) : Type 0 where
  pub quant_match_weight : F
  pub vram_free_weight : F
  pub gpu_util_weight : F
  pub queue_depth_weight : F
  pub latency_weight : F
  pub loaded_model_bonus_weight : F
  pub cold_load_penalty_weight : F
  pub throughput_weight : F
  pub max_queue_depth : ℤ
  pub unavailable_ttl : ℤ

-- The first model of that name.
unfoldable pub find_model : String → List ModelInfo → Option ModelInfo
find_model name [] = none
find_model name (m ∷ ms) = if str_eq m.name name then some m else find_model name ms

module _ (fl : Float64) where
  open fl use {Val, dec, of_int, add, sub, mul, div, min, ltb, leb, eqb}

  abbrev pub zero_f : Val
  zero_f = dec 0 0

  abbrev pub one_f : Val
  one_f = dec 1 0

  -- 0.5
  abbrev pub half_f : Val
  half_f = dec 5 1

  unfoldable pub new_weighted_scorer : WeightedScorer Val
  new_weighted_scorer = record {
    quant_match_weight = dec 40 2;
    vram_free_weight = dec 25 2;
    gpu_util_weight = dec 15 2;
    queue_depth_weight = dec 10 2;
    latency_weight = dec 10 2;
    loaded_model_bonus_weight = zero_f;
    cold_load_penalty_weight = zero_f;
    throughput_weight = zero_f;
    max_queue_depth = default_max_queue_depth;
    unavailable_ttl = default_unavailable_ttl;
  }

  unfoldable pub effective_max_queue_depth : WeightedScorer Val → ℤ
  effective_max_queue_depth s =
      if int_leb s.max_queue_depth (pos 0) then default_max_queue_depth else s.max_queue_depth

  -- `if x < 0 { x = 0 }; if x > 1 { x = 1 }`
  pub clamp_low : Val → Val
  clamp_low x = if ltb x zero_f then zero_f else x

  pub clamp_high : Val → Val
  clamp_high x = if ltb one_f x then one_f else x

  abbrev pub clamp_unit : Val → Val
  clamp_unit x = clamp_high (clamp_low x)

  quant_match_score : String → String → Val
  quant_match_score requested actual =
      if str_eq requested "" || str_eq requested actual
      then one_f
      else quantization_compatibility_score fl requested actual

  vram_free_ratio : WorkerInfo Val → Val
  vram_free_ratio w =
      if int_ltb (pos 0) w.vram_total_mb
      then clamp_high (div (of_int w.vram_free_mb) (of_int w.vram_total_mb))
      else half_f

  gpu_util_score : WorkerInfo Val → Val
  gpu_util_score w =
      if leb zero_f w.gpu_util_pct
      then clamp_unit (sub one_f (div w.gpu_util_pct (dec 100 0)))
      else half_f

  queue_depth_only : WeightedScorer Val → WorkerInfo Val → Val
  queue_depth_only s w =
      if int_leb (pos 0) w.queue_depth
      then clamp_unit (
          sub one_f (min (div (of_int w.queue_depth) (of_int (effective_max_queue_depth s))) one_f))
      else half_f

  abbrev pub knows_in_flight : WorkerInfo Val → Bool
  knows_in_flight w = int_leb (pos 0) w.in_flight && int_ltb (pos 0) w.max_in_flight

  in_flight_ratio : WorkerInfo Val → Val
  in_flight_ratio w = min (div (of_int w.in_flight) (of_int w.max_in_flight)) one_f

  -- The worse of the two load scores, where the in-flight count and its cap are known.
  queue_depth_score : WeightedScorer Val → WorkerInfo Val → Val
  queue_depth_score s w =
      let by_depth = queue_depth_only s w in
      let by_flight = clamp_unit (sub one_f (in_flight_ratio w)) in
      if knows_in_flight w
      then (if ltb by_flight by_depth then by_flight else by_depth)
      else by_depth

  latency_score : WorkerInfo Val → Val
  latency_score w =
      if leb zero_f w.avg_latency_ms
      then clamp_unit (sub one_f (min (div w.avg_latency_ms (dec 1000 0)) one_f))
      else half_f

  loaded_bonus_score : ModelInfo → Val
  loaded_bonus_score m = if m.loaded then one_f else zero_f

  cold_load_score : ModelInfo → WorkerInfo Val → Val
  cold_load_score m w =
      if m.loaded
      then zero_f
      else if knows_in_flight w
      then add half_f (mul half_f (in_flight_ratio w))
      else half_f

  throughput_score : WeightedScorer Val → WorkerInfo Val → Val
  throughput_score s w =
      if ltb zero_f s.throughput_weight
      then (if ltb w.tokens_per_second zero_f
          then half_f
          else clamp_low (min (div w.tokens_per_second (dec 100 0)) one_f))
      else zero_f

  -- The sum, in the order in which Go adds: from the left.
  unfoldable pub weighted_sum : WeightedScorer Val → ModelRequest → WorkerInfo Val → ModelInfo → Val
  unfolding quant_match_score vram_free_ratio effective_max_queue_depth gpu_util_score
      queue_depth_only queue_depth_score in_flight_ratio latency_score loaded_bonus_score
      cold_load_score throughput_score clamp_low clamp_high
  weighted_sum s request w m =
      let a = mul s.quant_match_weight (quant_match_score request.quantization m.quantization) in
      let b = add a (mul s.vram_free_weight (vram_free_ratio w)) in
      let c = add b (mul s.gpu_util_weight (gpu_util_score w)) in
      let d = add c (mul s.queue_depth_weight (queue_depth_score s w)) in
      let e = add d (mul s.latency_weight (latency_score w)) in
      let f = add e (mul s.loaded_model_bonus_weight (loaded_bonus_score m)) in
      let g = sub f (mul s.cold_load_penalty_weight (cold_load_score m w)) in
      add g (mul s.throughput_weight (throughput_score s w))

  -- The checks from the model on, and the score.
  score_model : WeightedScorer Val → ModelRequest → WorkerInfo Val → ModelInfo → Result Val
  unfolding clamp_low clamp_high
  score_model s request w m =
      if not m.loaded
        && eqb s.loaded_model_bonus_weight zero_f
        && eqb s.cold_load_penalty_weight zero_f
      then err no_matching_workers
      else if not (is_quantization_compatible request.quantization m.quantization)
      then err no_matching_workers
      else if int_ltb (pos 0) request.max_vram_mb && int_ltb w.vram_free_mb request.max_vram_mb
      then err no_capacity
      else if int_ltb (pos 0) request.min_vram_mb && int_ltb w.vram_free_mb request.min_vram_mb
      then err no_capacity
      else ok (clamp_unit (weighted_sum s request w m))

  score_found : WeightedScorer Val → ModelRequest → WorkerInfo Val → Option ModelInfo → Result Val
  unfolding score_model
  score_found s request w none = err no_matching_workers
  score_found s request w (some m) = score_model s request w m

  unfoldable pub score : WeightedScorer Val → ℕ → ModelRequest → WorkerInfo Val → Result Val
  unfolding score_found find_model
  score s now request w =
      if int_ltb s.unavailable_ttl (since now w.last_heartbeat)
      then err worker_unavailable
      else score_found s request w (find_model request.model w.models)

  abbrev pub weighted_algorithm : WeightedScorer Val → ScoringAlgorithm Val
  weighted_algorithm s = record {
    name = "weighted";
    score = score s;
    get_unavailable_ttl = s.unavailable_ttl;
  }
