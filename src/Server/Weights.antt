-- ===== src/Server/Weights.antt =====
-- The weights of the scorer: SetScorerWeights and SetScorerThroughputWeight of pkg/router/server.go,
-- over NewWeightedScorerWithConfig of pkg/scheduler/scheduler.go.
use infermesh.Prelude.{
  ◌≡◌, Bool, true, none, List, [], ◌∷◌, if◌then◌else◌, map, filter_by, ℤ, pos, int_leb, int_ltb,
}
use infermesh.Floats.{Float64}
use infermesh.Scheduler.{default_unavailable_ttl}
use infermesh.Scheduler.Score.{
  WeightedScorer, new_weighted_scorer, default_max_queue_depth, effective_max_queue_depth,
}
use infermesh.Server.{SchedulerWeights, Server}

module _ (fl : Float64) where
  open fl use {Val, dec, ltb}

  -- `NewWeightedScorerWithConfig`, from the fields of the weights and the default time.
  unfoldable pub new_weighted_scorer_with_config : SchedulerWeights Val → ℤ → WeightedScorer Val
  new_weighted_scorer_with_config w unavailable_ttl = record {
    quant_match_weight = w.quant_match;
    vram_free_weight = w.vram_free;
    gpu_util_weight = w.gpu_util;
    queue_depth_weight = w.queue_depth;
    latency_weight = w.latency;
    loaded_model_bonus_weight = w.loaded_model_bonus;
    cold_load_penalty_weight = w.cold_load_penalty;
    throughput_weight = w.throughput_weight;
    max_queue_depth =
        if int_leb w.max_queue_depth (pos 0) then default_max_queue_depth else w.max_queue_depth;
    unavailable_ttl = unavailable_ttl;
  }

  -- The settings of `NewServer`.
  unfoldable pub new_server : Server Val
  unfolding new_weighted_scorer effective_max_queue_depth
  new_server =
      let scorer = new_weighted_scorer fl in
      record {
        proxy_timeout = pos 120000000000;
        max_attempts = pos 3;
        retry_budget = pos 60000000000;
        model_load_timeout = pos 120000000000;
        auto_routing = none;
        model_aliases = none;
        scorer_weights = record {
          quant_match = scorer.quant_match_weight;
          vram_free = scorer.vram_free_weight;
          gpu_util = scorer.gpu_util_weight;
          queue_depth = scorer.queue_depth_weight;
          latency = scorer.latency_weight;
          loaded_model_bonus = scorer.loaded_model_bonus_weight;
          cold_load_penalty = scorer.cold_load_penalty_weight;
          max_queue_depth = effective_max_queue_depth fl scorer;
          throughput_weight = dec 0 0;
        };
        scorer = scorer;
      }

  -- `if x > 0 { w = x }`
  abbrev pub keep_or : Val → Val → Val
  keep_or current x = if ltb (dec 0 0) x then x else current

  unfoldable pub merged : SchedulerWeights Val → SchedulerWeights Val → SchedulerWeights Val
  merged w x = record {
    quant_match = keep_or w.quant_match x.quant_match;
    vram_free = keep_or w.vram_free x.vram_free;
    gpu_util = keep_or w.gpu_util x.gpu_util;
    queue_depth = keep_or w.queue_depth x.queue_depth;
    latency = keep_or w.latency x.latency;
    loaded_model_bonus = keep_or w.loaded_model_bonus x.loaded_model_bonus;
    cold_load_penalty = keep_or w.cold_load_penalty x.cold_load_penalty;
    max_queue_depth =
        if int_ltb (pos 0) x.max_queue_depth then x.max_queue_depth else w.max_queue_depth;
    throughput_weight = w.throughput_weight;
  }

  -- The arguments are the fields of `x` other than the throughput's.
  unfoldable pub set_scorer_weights : SchedulerWeights Val → Server Val → Server Val
  unfolding merged new_weighted_scorer_with_config
  set_scorer_weights x s =
      let w = merged s.scorer_weights x in
      record s {
        scorer_weights = w;
        scorer = new_weighted_scorer_with_config w default_unavailable_ttl;
      }

  unfoldable pub set_scorer_throughput_weight : Val → Server Val → Server Val
  unfolding new_weighted_scorer_with_config
  set_scorer_throughput_weight weight s =
      let w = record s.scorer_weights {
        throughput_weight = keep_or s.scorer_weights.throughput_weight weight;
      } in
      record s {
        scorer_weights = w;
        scorer = new_weighted_scorer_with_config w default_unavailable_ttl;
      }

  unfoldable pub scorer_weights_enabled : Server Val → Bool
  scorer_weights_enabled s =
      if ltb (dec 0 0) s.scorer_weights.loaded_model_bonus
      then true
      else ltb (dec 0 0) s.scorer_weights.cold_load_penalty

  pub data Call : Type 0 where
    sets_weights : SchedulerWeights Val → Call
    sets_throughput : Val → Call

  unfoldable pub step : Server Val → Call → Server Val
  unfolding set_scorer_weights set_scorer_throughput_weight
  step s (sets_weights x) = set_scorer_weights x s
  step s (sets_throughput weight) = set_scorer_throughput_weight weight s

  unfoldable pub run : Server Val → List Call → Server Val
  unfolding step
  run s [] = s
  run s (call ∷ calls) = run (step s call) calls

  -- What a history gives to SetScorerWeights.
  abbrev pub given : List Call → List (SchedulerWeights Val)
  given [] = []
  given (sets_weights x ∷ calls) = x ∷ given calls
  given (sets_throughput weight ∷ calls) = given calls

  -- What a history gives to SetScorerThroughputWeight.
  abbrev pub given_throughput : List Call → List Val
  given_throughput [] = []
  given_throughput (sets_weights x ∷ calls) = given_throughput calls
  given_throughput (sets_throughput weight ∷ calls) = weight ∷ given_throughput calls

  abbrev pub last_or : Val → List Val → Val
  last_or default [] = default
  last_or default (x ∷ xs) = last_or x xs

  -- The last positive value of a list.
  abbrev pub last_positive : Val → List Val → Val
  last_positive default xs = last_or default (filter_by (λ x. ltb (dec 0 0) x) xs)

  -- The scorer that the selection uses has the weights that are reported.
  abbrev pub InStep : Server Val → Type 0
  InStep s = s.scorer ≡ new_weighted_scorer_with_config s.scorer_weights default_unavailable_ttl

  -- The state after a history of the setters.
  pub record Follows (calls : List Call) (s : Server Val) : Type 0 where
    pub in_step : InStep s
    pub quant_match :
        s.scorer_weights.quant_match
        ≡ last_positive (dec 40 2) (map SchedulerWeights.quant_match (given calls))
    pub vram_free :
        s.scorer_weights.vram_free
        ≡ last_positive (dec 25 2) (map SchedulerWeights.vram_free (given calls))
    pub gpu_util :
        s.scorer_weights.gpu_util
        ≡ last_positive (dec 15 2) (map SchedulerWeights.gpu_util (given calls))
    pub queue_depth :
        s.scorer_weights.queue_depth
        ≡ last_positive (dec 10 2) (map SchedulerWeights.queue_depth (given calls))
    pub latency :
        s.scorer_weights.latency
        ≡ last_positive (dec 10 2) (map SchedulerWeights.latency (given calls))
    pub loaded_model_bonus :
        s.scorer_weights.loaded_model_bonus
        ≡ last_positive (dec 0 0) (map SchedulerWeights.loaded_model_bonus (given calls))
    pub cold_load_penalty :
        s.scorer_weights.cold_load_penalty
        ≡ last_positive (dec 0 0) (map SchedulerWeights.cold_load_penalty (given calls))
    pub throughput :
        s.scorer_weights.throughput_weight ≡ last_positive (dec 0 0) (given_throughput calls)
