-- ===== src/WorkerRun/Examples.antt =====
-- A worker that is started and reloaded, and its theorem at that run.
use infermesh.Prelude.{ℕ, ◌≡◌, refl, Bool, true, false, some, List, [], ◌∷◌, ◌==◌}
use infermesh.WorkerRun.{
  ReloadableConfig, RunConfig, Addresses, ws_loop, cancel_registration, start_loop, choose_loop,
  launch_registration, new_reloadable_config, split_model_list, initial_handle,
  register_without_relay, run_worker, Call, reloads, stops, run,
}
use infermesh.WorkerRun.OneLoop.{OneLoop, run-run_worker-OneLoop}

abbrev is_blank : ℕ → Bool
is_blank c = c == b' '

abbrev net : Addresses
net = record { hostname = λ url. some "127.0.0.1"; loopback_ip = λ host. some true }

abbrev env : ReloadableConfig
env = record {
  router_base = "";
  relay_url = "";
  relay_api_key = "";
  api_key = "secret";
  allowed_models = "";
  excluded_models = "";
}

-- In prod mode, with a relay and a router on the same host.
abbrev prod : RunConfig
prod = record {
  dev_mode = false;
  router_base = "http://127.0.0.1:8080";
  prod_router = "";
  relay_url = "ws://relay:9000";
  relay_api_key = "";
  api_key = "";
  allowed_models = "";
  excluded_models = "";
}

abbrev dev : RunConfig
dev = record prod { dev_mode = true }

-- The relay is for dev mode only, but a worker in prod mode registers with it.
relay_in_prod :
    (run_worker is_blank "10.0.0.1" true true prod).loops
    ≡ record { loop = ws_loop (new_reloadable_config prod); running = true } ∷ []
unfolding run_worker initial_handle register_without_relay launch_registration cancel_registration
    choose_loop start_loop new_reloadable_config split_model_list
relay_in_prod = refl

abbrev calls : List Call
calls = reloads env true ∷ reloads env false ∷ stops ∷ []

run-run_worker-OneLoop_example :
    OneLoop (run is_blank net (run_worker is_blank "10.0.0.1" true true dev) calls)
run-run_worker-OneLoop_example = run-run_worker-OneLoop is_blank net "10.0.0.1" true true dev calls
