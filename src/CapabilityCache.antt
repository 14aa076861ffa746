-- ===== src/CapabilityCache.antt =====
-- pkg/router/capability_cache.go: what the router's endpoints serve about workers, kept by the events
-- of the registry. The answer to the HTTP request for a worker's capabilities is an argument (`none`
-- where it fails). Each method is one step, as its mutexes make it for each map.
pub mod Follows
pub mod Stats
mod Examples
use infermesh.Prelude.{
  ℕ, suc, String, Bool, Option, none, some, List, [], ◌∷◌, ℤ, str_eq, if◌then◌else◌, Map, lookup,
  insert, delete, true, false,
}
use infermesh.Protocol.{WorkerInfo, Capabilities, InferenceStatsSnapshot}
use infermesh.Registry.{
  Event, event, probe, register_added, registry_updated, registry_removed, registry_unavailable,
}

abbrev pub transport_ws : String
transport_ws = "ws"

pub record WorkerInferenceStats (F : Type 0) : Type 0 where
  pub worker_id : String
  pub model : String
  pub tokens_per_second : F
  pub avg_ttft_ms : F
  pub avg_prompt_tokens : F
  pub avg_completion_tokens : F
  pub samples : ℤ

pub record CapabilityCache (F : Type 0) : Type 0 where
  pub cache : Map (WorkerInfo F)
  pub inference_stats : Map (Map (WorkerInferenceStats F))

module _ {F : Type 0} where
  unfoldable pub new_capability_cache : CapabilityCache F
  new_capability_cache = record { cache = []; inference_stats = [] }

  unfoldable pub get : String → CapabilityCache F → Option (WorkerInfo F)
  get id c = lookup id c.cache

  unfoldable pub worker_inference_stats : String → InferenceStatsSnapshot F → WorkerInferenceStats F
  worker_inference_stats worker_id s = record {
    worker_id = worker_id;
    model = s.model;
    tokens_per_second = s.tokens_per_second;
    avg_ttft_ms = s.avg_ttft_ms;
    avg_prompt_tokens = s.avg_prompt_tokens;
    avg_completion_tokens = s.avg_completion_tokens;
    samples = s.samples;
  }

  -- The loop of `setInferenceStats`.
  unfoldable pub by_model :
      String
      → List (InferenceStatsSnapshot F)
      → Map (WorkerInferenceStats F)
      → Map (WorkerInferenceStats F)
  unfolding worker_inference_stats
  by_model worker_id [] stats = stats
  by_model worker_id (s ∷ snaps) stats =
      by_model worker_id snaps (insert s.model (worker_inference_stats worker_id s) stats)

  unfoldable pub set_inference_stats :
      String → List (InferenceStatsSnapshot F) → CapabilityCache F → CapabilityCache F
  unfolding by_model
  set_inference_stats worker_id [] c = record c {
    inference_stats = delete worker_id c.inference_stats;
  }
  set_inference_stats worker_id (s ∷ snaps) c = record c {
    inference_stats = insert worker_id (by_model worker_id (s ∷ snaps) []) c.inference_stats;
  }

  unfoldable pub delete_worker_inference_stats : String → CapabilityCache F → CapabilityCache F
  delete_worker_inference_stats worker_id c = record c {
    inference_stats = delete worker_id c.inference_stats;
  }

  unfoldable pub get_inference_stats :
      String → String → CapabilityCache F → Option (WorkerInferenceStats F)
  get_inference_stats worker_id model c = elim (lookup worker_id c.inference_stats) [
    | none ↦ none
    | some stats ↦ lookup model stats
  ]

  -- A worker on a WebSocket has sent its capabilities; another is asked, and answers `answer`.
  unfoldable pub fetch_capabilities :
      Option (Capabilities F) → WorkerInfo F → Option (Capabilities F)
  fetch_capabilities answer worker =
      if str_eq worker.transport transport_ws then some worker.capabilities else answer

  store_capabilities :
      WorkerInfo F → Option (Capabilities F) → CapabilityCache F → CapabilityCache F
  unfolding set_inference_stats
  store_capabilities worker none c = c
  store_capabilities worker (some caps) c =
      set_inference_stats worker.id caps.inference_stats
        (record c { cache = insert worker.id (record worker { capabilities = caps }) c.cache })

  unfoldable pub update :
      Option (Capabilities F) → WorkerInfo F → CapabilityCache F → CapabilityCache F
  unfolding store_capabilities fetch_capabilities
  update answer worker c =
      store_capabilities worker (fetch_capabilities answer worker)
        (record c { cache = insert worker.id worker c.cache })

  forget : WorkerInfo F → CapabilityCache F → CapabilityCache F
  unfolding delete_worker_inference_stats
  forget worker c =
      delete_worker_inference_stats worker.id (record c { cache = delete worker.id c.cache })

  -- One turn of the loop of `Start`.
  unfoldable pub on_event :
      Option (Capabilities F) → Event F → CapabilityCache F → CapabilityCache F
  unfolding update forget
  on_event answer (event register_added worker) c = update answer worker c
  on_event answer (event registry_updated worker) c = update answer worker c
  on_event answer (event registry_removed worker) c = forget worker c
  on_event answer (event registry_unavailable worker) c = forget worker c
  on_event answer probe c = c

  -- The loop over the events that wait in the channel; `answers n` is the answer at its turn `n`.
  unfoldable pub on_events :
      (ℕ → Option (Capabilities F)) → List (Event F) → CapabilityCache F → CapabilityCache F
  unfolding on_event
  on_events answers [] c = c
  on_events answers (e ∷ es) c = on_events (λ n. answers (suc n)) es (on_event (answers 0) e c)
