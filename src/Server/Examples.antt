-- ===== src/Server/Examples.antt =====
-- Runs of the router's server, and its theorems at inputs that meet the hypotheses. Floating-point
-- values are stood in for by natural numbers of ten-thousandths.
use infermesh.Prelude.{
  ℕ, ◌≤◌, ◌≡◌, refl, ◌↔◌, String, true, false, Option, none, some, List, [], ◌∷◌, Memᴰ, arith,
  filter_by, Map, lookup, insert, pos,
}
use infermesh.Floats.Fixed.{fixed}
use infermesh.Protocol.{ModelInfo, WorkerInfo}
use infermesh.Registry.{Registry, defaults, get, handle_event}
use infermesh.Aliases.{ModelAliasConfig}
use infermesh.CallCounter.{Call, records, new_call_counter, run, snapshot}
use infermesh.CallCounter.Counts.{occurrences}
use infermesh.CallCounter.Window.{is_live, recorded}
use infermesh.Connections.{Net}
use infermesh.Connections.Calls.Identity.{ip_of}
use infermesh.Server.{SchedulerWeights, resolve_auto_model}
use infermesh.Server.Weights.{sets_weights, sets_throughput}
use infermesh.Server.Weights as Weights
use infermesh.Server.Inference.{dispatches, handle_inference}
use infermesh.Server.Models.{models_list}
use infermesh.Server.Models.Reachable.{Advertised, plain_request, models_list-reaches}
use infermesh.Server.Popular.{PopularModelInfo, popular_models}
use infermesh.Server.Popular.Exact.{offers, loads, offered, report, popular_models_exact}
use infermesh.Server.Registration.{handle_dev_register, handle_dev_register-ip_of}

abbrev weights : ℕ → ℕ → SchedulerWeights ℕ
weights latency bonus = record {
  quant_match = 0;
  vram_free = 0;
  gpu_util = 0;
  queue_depth = 0;
  latency = latency;
  loaded_model_bonus = bonus;
  cold_load_penalty = 0;
  max_queue_depth = pos 0;
  throughput_weight = 0;
}

abbrev setting : List (Weights.Call fixed)
setting = sets_weights (weights 2000 0) ∷ sets_throughput 500 ∷ sets_weights (weights 0 700) ∷ []

abbrev model : String → ModelInfo
model name = record {
  name = name;
  size = pos 4000;
  quantization = "Q8";
  max_tokens = pos 8192;
  backend = "llama-cpp";
  loaded = true;
}

abbrev worker : String → String → WorkerInfo ℕ
worker id ip = record {
  id = id;
  hostname = id;
  ip = ip;
  port = pos 8081;
  capabilities = record {
    gpu = record {
      vendor = "";
      model = "";
      compute_core = pos 0;
      total_vram = pos 0;
      free_vram = pos 0;
    };
    models = model "phi3" ∷ model "llama3" ∷ [];
    engines = [];
    vram = record { total_mb = pos 0; free_mb = pos 0 };
    system = record { total_mb = pos 0; free_mb = pos 0 };
    allowed_models = [];
    excluded_models = [];
    concurrency_cap = pos 2;
    threads = pos 0;
    inference_stats = [];
  };
  status = "available";
  version = "1";
  transport = "";
  api_key = "";
  last_seen = 0;
}

abbrev cache : Map (WorkerInfo ℕ)
cache = ("a", worker "a" "10.0.0.1") ∷ ("b", worker "b" "10.0.0.2") ∷ []

abbrev renaming : Option ModelAliasConfig
renaming = some (record { aliases = ("fast", record { canonical = "phi3" }) ∷ [] })

-- "phi3" is hidden by its alias, and is reached through it.
models_list-reaches_example :
    (name : String) × Advertised name (models_list none renaming cache)
    × (handle_inference {F = ℕ}
          (λ m. none)
          (λ id. false)
          (resolve_auto_model (λ cfg. ("", false)) none)
          renaming
          true
          "POST"
          (some (plain_request name))
        ≡ ([], dispatches "phi3"))
unfolding lookup
models_list-reaches_example =
    models_list-reaches (λ m. none) (λ id. false) (λ cfg. ("", false)) none renaming cache "a"
      (worker "a" "10.0.0.1") (model "phi3") (Memᴰ.head refl) (Memᴰ.head refl) refl (tt, tt) refl
      refl refl

abbrev calls : List Call
calls = records "phi3" 10 ∷ records "llama3" 20 ∷ records "phi3" 30 ∷ []

abbrev phi : PopularModelInfo
phi = record { model = "phi3"; worker_count = 2; loaded_worker_count = 2; call_count = 1 }

popular_models_exact_example :
    Memᴰ phi (popular_models (λ xs. xs) (snapshot 120 (run (new_call_counter 100) calls)).1 cache)
    ↔ ((1 ≤ offers "phi3" (offered cache))
        × (phi
            ≡ report "phi3"
                (offers "phi3" (offered cache))
                (loads "phi3" (offered cache))
                (occurrences "phi3" (filter_by (is_live 100 120) (recorded calls)))))
popular_models_exact_example =
    popular_models_exact (λ xs. xs) (λ xs x. (λ h. h, λ h. h)) 100 120 calls cache phi (omega arith)

-- Addresses are written without a port.
abbrev net : Net String
net = record {
  split_host_port = λ s. none;
  parse_ip = λ s. some s;
  is_loopback = λ s. false;
  is_ip4 = λ s. true;
  ip4_loopback = "127.0.0.1";
  ip_string = λ s. s;
}

abbrev empty : Registry ℕ
empty = record { cfg = defaults; workers = []; subs = [] }

abbrev known : Registry ℕ
known = (handle_dev_register net true 5 "POST" (some (worker "a" "")) "10.0.0.1" empty empty).0

-- Two peers claim an id that is free, and both are checked before the registry is told of either.
abbrev second_peer : Registry ℕ
second_peer =
    (handle_dev_register net true 6 "POST" (some (worker "a" "")) "10.0.0.2" empty known).0

second_peer_wins :
    (ip_of (get "a" known) ≡ some "10.0.0.1") × (ip_of (get "a" second_peer) ≡ some "10.0.0.2")
unfolding get handle_dev_register handle_event lookup insert
second_peer_wins = (refl, refl)

-- The worker registers again, while another peer is turned away.
abbrev later : Registry ℕ
later = (handle_dev_register net true 8 "POST" (some (worker "a" "")) "10.0.0.9" known known).0

handle_dev_register-ip_of_example :
    ip_of (
      get "a"
        (handle_dev_register net true 9 "POST"
          (some (worker "a" "10.0.0.1"))
          "10.0.0.1"
          known
          later).0)
    ≡ some "10.0.0.1"
unfolding get handle_dev_register handle_event lookup insert
handle_dev_register-ip_of_example =
    handle_dev_register-ip_of net true 9 "POST" (some (worker "a" "10.0.0.1")) "10.0.0.1" "a"
      "10.0.0.1" known later refl refl
