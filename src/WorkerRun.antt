-- ===== src/WorkerRun.antt =====
-- pkg/worker/run.go: how a running worker registers itself. RunWorker is modelled from the choice of a
-- registration on, and ReloadConfig and Stop whole; `splitModelList` is of pkg/worker/host.go. A
-- goroutine that registers is an entry of `loops`, which the context cancels. What the environment, the
-- relay and package net answer are arguments.
pub mod OneLoop
mod Examples
use infermesh.Prelude.{
  ℕ, String, Bool, true, false, not, ◌&&◌, ◌||◌, Option, none, some, List, [], ◌∷◌, ◌++◌, str_eq,
  if◌then◌else◌, length, set, get_elem?, map,
}
use infermesh.Connections.{transport_ws}
use infermesh.Aliases.{split, trim_space}

pub record ReloadableConfig : Type 0 where
  pub router_base : String
  pub relay_url : String
  pub relay_api_key : String
  pub api_key : String
  pub allowed_models : String
  pub excluded_models : String

-- What the registration reads of RunConfig.
pub record RunConfig : Type 0 where
  pub dev_mode : Bool
  pub router_base : String
  pub prod_router : String
  pub relay_url : String
  pub relay_api_key : String
  pub api_key : String
  pub allowed_models : String
  pub excluded_models : String

unfoldable pub new_reloadable_config : RunConfig → ReloadableConfig
new_reloadable_config cfg = record {
  router_base = cfg.router_base;
  relay_url = cfg.relay_url;
  relay_api_key = cfg.relay_api_key;
  api_key = cfg.api_key;
  allowed_models = cfg.allowed_models;
  excluded_models = cfg.excluded_models;
}

-- A goroutine that registers the worker, with the configuration that it was started with.
pub data Loop : Type 0 where
  ws_loop http_loop mtls_loop : ReloadableConfig → Loop

pub record Goroutine : Type 0 where
  pub loop : Loop
  pub running : Bool

-- `reg_cancel` is the place of the goroutine that it cancels.
pub record Handle : Type 0 where
  pub loops : List Goroutine
  pub reg_cancel : Option ℕ
  pub reg_config : ReloadableConfig
  pub reg_ip : String
  pub reg_transport : String
  pub reg_dev_mode : Bool
  pub reg_use_mtls : Bool
  pub announcing : Bool
  -- The context of the worker is cancelled.
  pub stopped : Bool
  pub allowed_models : List String
  pub excluded_models : List String
  pub api_key : String

-- `url.Hostname`, none where url.Parse fails or there is no host; and `net.ParseIP`, with IsLoopback.
pub record Addresses : Type 0 where
  pub hostname : String → Option String
  pub loopback_ip : String → Option Bool

unfoldable pub is_loopback : Addresses → String → Bool
is_loopback net host =
    if str_eq host "localhost"
    then true
    else elim (net.loopback_ip host) [ none ↦ false | some loopback ↦ loopback ]

pub data ConfigError : Type 0 where
  relay_in_prod router_base_not_loopback : ConfigError

-- `ValidateRunConfig`, of the mode, the router's address and the relay's.
unfoldable pub validate_run_config : Addresses → Bool → String → String → Option ConfigError
unfolding is_loopback
validate_run_config net dev_mode router_base relay_url =
    if not dev_mode && not (str_eq relay_url "")
    then some relay_in_prod
    else if not dev_mode && not (str_eq router_base "")
    then elim (net.hostname router_base) [
      | none ↦ none
      | some host ↦ if is_loopback net host then none else some router_base_not_loopback
    ]
    else none

abbrev pub kept_parts : (String → String) → List String → List String
kept_parts trim [] = []
kept_parts trim (p ∷ ps) =
    let rest = kept_parts trim ps in if str_eq (trim p) "" then rest else trim p ∷ rest

unfoldable pub split_model_list : (ℕ → Bool) → String → List String
split_model_list is_space s =
    if str_eq s "" then [] else kept_parts (trim_space is_space) (split b',' s)

abbrev pub cancelled : Goroutine → Goroutine
cancelled g = record g { running = false }

-- `h.regCancel()`, where it is set.
unfoldable pub cancel_at : Option Goroutine → ℕ → Handle → Handle
cancel_at none ref h = h
cancel_at (some g) ref h = record h { loops = set h.loops ref (cancelled g) }

unfoldable pub cancel_registration : Option ℕ → Handle → Handle
unfolding cancel_at
cancel_registration none h = h
cancel_registration (some ref) h = record (cancel_at (get_elem? h.loops ref) ref h) {
  reg_cancel = none;
}

-- A goroutine is started, and `regCancel` cancels it; its context derives from that of the worker.
unfoldable pub start_loop : Loop → Handle → Handle
start_loop loop h = record h {
  loops = h.loops ++ record { loop = loop; running = not h.stopped } ∷ [];
  reg_cancel = some (length h.loops);
}

-- The choice of `launchRegistration`; `reachable` is the answer of relayReachable.
unfoldable pub choose_loop : Bool → ReloadableConfig → Option Loop
choose_loop reachable cfg =
    if not (str_eq cfg.relay_url "")
    then (if not (str_eq cfg.router_base "") && not reachable
        then some (http_loop cfg)
        else some (ws_loop cfg))
    else if not (str_eq cfg.router_base "")
    then some (http_loop cfg)
    else none

abbrev pub start_chosen : Option Loop → Handle → Handle
start_chosen none h = h
start_chosen (some loop) h = start_loop loop h

unfoldable pub launch_registration : Bool → ReloadableConfig → Handle → Handle
unfolding cancel_registration choose_loop start_loop
launch_registration reachable cfg h =
    start_chosen (choose_loop reachable cfg)
      (record (cancel_registration h.reg_cancel h) { reg_config = cfg })

unfoldable pub launch_mtls_registration : ReloadableConfig → Handle → Handle
unfolding cancel_registration start_loop
launch_mtls_registration cfg h =
    start_loop (mtls_loop cfg) (record (cancel_registration h.reg_cancel h) { reg_config = cfg })

-- `if newVal := os.Getenv(...); newVal != ""`
abbrev pub env_or : String → String → String
env_or current value = if str_eq value "" then current else value

unfoldable pub effective_reload_config : ReloadableConfig → ReloadableConfig → ReloadableConfig
effective_reload_config env current = record {
  router_base = env_or current.router_base env.router_base;
  relay_url = env_or current.relay_url env.relay_url;
  relay_api_key = env_or current.relay_api_key env.relay_api_key;
  api_key = env_or current.api_key env.api_key;
  allowed_models = env_or current.allowed_models env.allowed_models;
  excluded_models = env_or current.excluded_models env.excluded_models;
}

-- The end of `ReloadConfig`, by whether the worker registers over mTLS.
unfoldable pub relaunch : Bool → Bool → ReloadableConfig → Handle → Handle
unfolding launch_registration launch_mtls_registration
relaunch true reachable cfg h = launch_mtls_registration cfg h
relaunch false reachable cfg h = launch_registration reachable cfg h

-- `SetModelFilters` and `SetAPIKey` of the server.
unfoldable pub set_filters : (ℕ → Bool) → ReloadableConfig → Handle → Handle
unfolding split_model_list
set_filters is_space cfg h = record h {
  allowed_models = split_model_list is_space cfg.allowed_models;
  excluded_models = split_model_list is_space cfg.excluded_models;
  api_key = cfg.api_key;
}

-- `ReloadConfig` after the validation.
unfoldable pub apply_config :
    (ℕ → Bool) → Bool → ReloadableConfig → Option ConfigError → Handle → Handle × Option ConfigError
unfolding relaunch set_filters
apply_config is_space reachable cfg (some e) h = (h, some e)
apply_config is_space reachable cfg none h =
    (relaunch h.reg_use_mtls reachable cfg (set_filters is_space cfg h), none)

-- `ReloadConfig`; `env` holds the variables of the environment.
unfoldable pub reload_config :
    (ℕ → Bool) → Addresses → ReloadableConfig → Bool → Handle → Handle × Option ConfigError
unfolding effective_reload_config validate_run_config apply_config
reload_config is_space net env reachable h =
    let cfg = effective_reload_config env h.reg_config in
    apply_config is_space reachable cfg
      (validate_run_config net h.reg_dev_mode cfg.router_base cfg.relay_url) h

-- The handle of RunWorker before a registration is chosen; `ip` is LocalIP.
unfoldable pub initial_handle : (ℕ → Bool) → String → RunConfig → Handle
unfolding split_model_list
initial_handle is_space ip cfg = record {
  loops = [];
  reg_cancel = none;
  reg_config = record {
    router_base = "";
    relay_url = "";
    relay_api_key = "";
    api_key = "";
    allowed_models = "";
    excluded_models = "";
  };
  reg_ip = ip;
  reg_transport = "";
  reg_dev_mode = cfg.dev_mode;
  reg_use_mtls = not (str_eq cfg.prod_router "") && not cfg.dev_mode;
  announcing = false;
  stopped = false;
  allowed_models = split_model_list is_space cfg.allowed_models;
  excluded_models = split_model_list is_space cfg.excluded_models;
  api_key = cfg.api_key;
}

-- After the relay: mTLS, HTTP or mDNS.
unfoldable pub register_without_relay : Bool → RunConfig → Handle → Handle
unfolding launch_registration launch_mtls_registration new_reloadable_config
register_without_relay reachable cfg h =
    if not (str_eq cfg.prod_router "") && not cfg.dev_mode
    then launch_mtls_registration (new_reloadable_config cfg) (record h { reg_ip = "127.0.0.1" })
    else if not (str_eq cfg.router_base "")
    then launch_registration reachable (new_reloadable_config cfg)
        (record h { reg_ip = if cfg.dev_mode then h.reg_ip else "127.0.0.1" })
    else record h { announcing = true }

-- The end of RunWorker; `first` and `second` are the answers of relayReachable here and in
-- launchRegistration. The announcer reports no error.
unfoldable pub run_worker : (ℕ → Bool) → String → Bool → Bool → RunConfig → Handle
unfolding initial_handle launch_registration register_without_relay new_reloadable_config
run_worker is_space ip first second cfg =
    let h = initial_handle is_space ip cfg in
    if not (str_eq cfg.relay_url "") && cfg.dev_mode && (first || str_eq cfg.router_base "")
    then launch_registration second (new_reloadable_config cfg)
        (record h { reg_transport = transport_ws })
    else register_without_relay second cfg h

-- `Stop`: the context of the worker, from which those of the loops derive, is cancelled.
unfoldable pub stop : Handle → Handle
stop h = record h { loops = map cancelled h.loops; announcing = false; stopped = true }

pub data Call : Type 0 where
  reloads : ReloadableConfig → Bool → Call
  stops : Call

unfoldable pub step : (ℕ → Bool) → Addresses → Handle → Call → Handle
unfolding reload_config stop
step is_space net h (reloads env reachable) = (reload_config is_space net env reachable h).0
step is_space net h stops = stop h

unfoldable pub run : (ℕ → Bool) → Addresses → Handle → List Call → Handle
unfolding step
run is_space net h [] = h
run is_space net h (call ∷ calls) = run is_space net (step is_space net h call) calls
