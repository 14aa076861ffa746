-- ===== src/Scheduler/Examples.antt =====
-- Runs of the scheduler, and its theorems at inputs that meet their hypotheses. Floating-point values
-- are stood in for by natural numbers of ten-thousandths.
use infermesh.Prelude.{ℕ, ◌≡◌, refl, inl, String, true, List, [], ◌∷◌, arith, pos}
use infermesh.Protocol.{ModelInfo}
use infermesh.Floats.Fixed.{fixed}
use infermesh.Floats.{Ordered, Units}
use infermesh.Scheduler.{ModelRequest, WorkerInfo, ok, filter_unavailable, filter_by_allowed_models}
use infermesh.Scheduler.Quantization.{
  is_quantization_compatible, quant_capability, quantization_compatibility_score,
}
use infermesh.Scheduler.Score.{
  find_model, weighted_sum, new_weighted_scorer, score, weighted_algorithm,
}
use infermesh.Scheduler.Score.Eligible.{IsEligible}
use infermesh.Scheduler.Select.{ScoringAlgorithm, SelectedWorker, select_worker}
use infermesh.Scheduler.Select.Best.{FirstBest, candidates, select_worker-FirstBest}
use infermesh.Scheduler.Select.Outcomes.{Outcome, select_worker_outcomes}

fixed-Ordered : Ordered fixed (λ _. Unit {0})
fixed-Ordered = record { asym = λ a b _ _ h. ground arith; trans = λ a b c _ _ _ h k. ground arith }

fixed-Units : Units fixed
fixed-Units = record { zero_zero = refl; one_zero = refl; one_one = refl }

abbrev llama : ModelInfo
llama = record {
  name = "llama3-8b";
  size = pos 4000;
  quantization = "Q8";
  max_tokens = pos 8192;
  backend = "llama-cpp";
  loaded = true;
}

abbrev idle : WorkerInfo ℕ
idle = record {
  id = "a";
  addr = "10.0.0.1:8081";
  models = llama ∷ [];
  vram_total_mb = pos 8000;
  vram_free_mb = pos 4000;
  gpu_util_pct = 0;
  queue_depth = pos 0;
  in_flight = pos 0;
  max_in_flight = pos 4;
  avg_latency_ms = 0;
  last_heartbeat = 1000;
  tokens_per_second = 0;
  allowed_models = [];
  excluded_models = [];
}

abbrev busy : WorkerInfo ℕ
busy = record idle { id = "b"; queue_depth = pos 9; in_flight = pos 3 }

abbrev choosy : WorkerInfo ℕ
choosy = record idle { id = "c"; allowed_models = "mistral-7b" ∷ [] }

abbrev request : ModelRequest
request = record {
  model = "llama3-8b";
  quantization = "Q4";
  max_vram_mb = pos 0;
  min_vram_mb = pos 1000;
}

-- 0.40 * 0.6 + 0.25 * 0.5 + 0.15 + 0.10 + 0.10
idle_scores : score fixed (new_weighted_scorer fixed) 2000 request idle ≡ ok 7150
unfolding score weighted_sum new_weighted_scorer is_quantization_compatible quant_capability
    quantization_compatibility_score
idle_scores = refl

abbrev algo : ScoringAlgorithm ℕ
algo = weighted_algorithm fixed (new_weighted_scorer fixed)

abbrev fleet : List (WorkerInfo ℕ)
fleet = busy ∷ choosy ∷ idle ∷ []

abbrev winner : SelectedWorker ℕ
winner = record { worker = idle; score = 7150; reason = "best score: 0.72" }

abbrev format : ℕ → String
format _ = "best score: 0.72"

fleet_selects : select_worker fixed format algo 2000 request fleet (pos 5000) ≡ ok winner
unfolding select_worker score weighted_sum new_weighted_scorer is_quantization_compatible
    quant_capability quantization_compatibility_score filter_unavailable filter_by_allowed_models
fleet_selects = refl

select_worker-FirstBest_example :
    FirstBest fixed
      (algo.score 2000 request)
      (candidates fixed 2000 request fleet (pos 5000))
      idle
      7150
select_worker-FirstBest_example =
    select_worker-FirstBest fixed fixed-Ordered format algo 2000 request fleet (pos 5000) winner
      (λ _ _ _. tt) fleet_selects

select_worker_outcomes_example :
    Outcome fixed
      (algo.score 2000 request)
      2000
      request
      fleet
      (pos 5000)
      (select_worker fixed format algo 2000 request fleet (pos 5000))
select_worker_outcomes_example =
    select_worker_outcomes fixed format algo 2000 request fleet (pos 5000)

idle-IsEligible : IsEligible fixed (new_weighted_scorer fixed) 2000 request idle llama
unfolding new_weighted_scorer find_model is_quantization_compatible quant_capability
idle-IsEligible = record {
  fresh = refl;
  found = refl;
  loadable = inl refl;
  compatible = refl;
  roomy = (refl, refl);
}
