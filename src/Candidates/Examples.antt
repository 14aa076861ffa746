-- ===== src/Candidates/Examples.antt =====
-- A choice between two workers of which one is excluded. Floating-point values are stood in for by
-- natural numbers of ten-thousandths.
use infermesh.Prelude.{ℕ, ◌≡◌, refl, String, true, false, none, List, [], ◌∷◌, Memᴰ, pos, ℤ}
use infermesh.Protocol.{WorkerInfo, ModelInfo, status_available}
use infermesh.Floats.Fixed.{fixed}
use infermesh.Scheduler.{ok, filter_unavailable, filter_by_allowed_models}
use infermesh.Scheduler.Quantization.{is_quantization_compatible}
use infermesh.Scheduler.Score.{weighted_sum, new_weighted_scorer, score, weighted_algorithm}
use infermesh.Scheduler.Select.{ScoringAlgorithm, select_worker}
use infermesh.Candidates.{build_candidates, to_scheduler_worker, select_worker_excluding}
use infermesh.Candidates.Exclusion.{select_worker_excluding-excluded}

abbrev llama : ModelInfo
llama = record {
  name = "llama3-8b";
  size = pos 4000;
  quantization = "Q8";
  max_tokens = pos 8192;
  backend = "llama-cpp";
  loaded = true;
}

abbrev pub worker : String → WorkerInfo ℕ
worker id = record {
  id = id;
  hostname = id;
  ip = "10.0.0.1";
  port = pos 8090;
  capabilities = record {
    gpu = record {
      vendor = "none";
      model = "";
      compute_core = pos 0;
      total_vram = pos 0;
      free_vram = pos 0;
    };
    models = llama ∷ [];
    engines = [];
    vram = record { total_mb = pos 8000; free_mb = pos 4000 };
    system = record { total_mb = pos 0; free_mb = pos 0 };
    allowed_models = [];
    excluded_models = [];
    concurrency_cap = pos 0;
    threads = pos 4;
    inference_stats = [];
  };
  status = status_available;
  version = "1";
  transport = "http";
  api_key = "";
  last_seen = 1000;
}

abbrev pub addr : String → ℤ → String
addr ip port = ip

abbrev pub format : ℕ → String
format _ = "best score"

abbrev pub algo : ScoringAlgorithm ℕ
algo = weighted_algorithm fixed (new_weighted_scorer fixed)

abbrev pub fleet : List (WorkerInfo ℕ)
fleet = worker "a" ∷ worker "b" ∷ []

chooses_b :
    select_worker_excluding fixed addr format algo 2000 false
      (λ w. false)
      (λ ws. ws)
      (λ vs. vs)
      (λ w. none)
      (λ w. none)
      "llama3-8b"
      fleet
      ("a" ∷ [])
    ≡ ok (worker "b")
unfolding select_worker_excluding build_candidates to_scheduler_worker filter_by_allowed_models
    select_worker filter_unavailable score weighted_sum new_weighted_scorer
    is_quantization_compatible
chooses_b = refl

select_worker_excluding-excluded_example : ¬ Memᴰ {A = String} "b" ("a" ∷ [])
select_worker_excluding-excluded_example =
    select_worker_excluding-excluded fixed addr format algo 2000 false (λ w. false) (λ ws. ws)
      (λ vs. vs) (λ w. none) (λ w. none) "llama3-8b" fleet ("a" ∷ []) (worker "b") (λ x ws h. h)
      chooses_b
