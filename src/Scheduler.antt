-- ===== src/Scheduler.antt =====
-- pkg/scheduler/scheduler.go: requests, the scheduler's view of a worker, its errors and filters.
pub mod Quantization
pub mod Score
pub mod Select
pub mod Filters
mod Examples
use infermesh.Prelude.{
  ℕ, String, Bool, true, false, not, ◌&&◌, ◌||◌, List, [], ◌∷◌, str_eq, filter_by, if◌then◌else◌, ℤ,
  pos, sub_ℕ, int_ltb, int_leb,
}
use infermesh.Protocol.{ModelInfo}

pub record ModelRequest : Type 0 where
  pub model : String
  pub quantization : String
  pub max_vram_mb : ℤ
  pub min_vram_mb : ℤ

-- `last_heartbeat` is the time of the last heartbeat, on the clock of the calls.
pub record WorkerInfo (F : Type 0) : Type 0 where
  pub id : String
  pub addr : String
  pub models : List ModelInfo
  pub vram_total_mb : ℤ
  pub vram_free_mb : ℤ
  pub gpu_util_pct : F
  pub queue_depth : ℤ
  pub in_flight : ℤ
  pub max_in_flight : ℤ
  pub avg_latency_ms : F
  pub last_heartbeat : ℕ
  pub tokens_per_second : F
  pub allowed_models : List String
  pub excluded_models : List String

pub data Error : Type 0 where
  no_matching_workers all_workers_unavailable no_capacity worker_unavailable : Error

pub data Result {ℓ} (A : Type ℓ) : Type ℓ where
  ok : A → Result A
  err : Error → Result A

-- 30 seconds, in nanoseconds.
abbrev pub default_unavailable_ttl : ℤ
default_unavailable_ttl = pos 30000000000

-- `time.Since(t)`
abbrev pub since : ℕ → ℕ → ℤ
since now t = sub_ℕ now t

-- `unavailableTTL <= 0` falls back to the default.
abbrev pub effective_ttl : ℤ → ℤ
effective_ttl ttl = if int_leb ttl (pos 0) then default_unavailable_ttl else ttl

-- The loops over a list of names with `break` on the first hit.
abbrev pub contains : String → List String → Bool
contains model [] = false
contains model (m ∷ ms) = str_eq m model || contains model ms

abbrev pub is_empty {ℓ} : {A : Type ℓ} → List A → Bool
is_empty [] = true
is_empty (x ∷ xs) = false

-- The loop of `FilterByModel` over one worker's models.
abbrev pub has_loaded : String → List ModelInfo → Bool
has_loaded model [] = false
has_loaded model (m ∷ ms) = (str_eq m.name model && m.loaded) || has_loaded model ms

module _ {F : Type 0} where
  -- `time.Since(w.LastHeartbeat) <= unavailableTTL`
  abbrev pub is_fresh : ℕ → ℤ → WorkerInfo F → Bool
  is_fresh now ttl w = int_leb (since now w.last_heartbeat) ttl

  -- The body of the loop of `FilterByAllowedModels`: true where it appends.
  abbrev pub is_willing : ModelRequest → WorkerInfo F → Bool
  is_willing request w =
      if not (is_empty w.allowed_models)
      then contains request.model w.allowed_models
      else if not (is_empty w.excluded_models)
      then not (contains request.model w.excluded_models)
      else true

  -- The body of the loop of `FilterByVRAM`.
  abbrev pub has_vram : ModelRequest → WorkerInfo F → Bool
  has_vram request w =
      if int_ltb (pos 0) request.max_vram_mb && int_ltb w.vram_free_mb request.max_vram_mb
      then false
      else if int_ltb (pos 0) request.min_vram_mb && int_ltb w.vram_free_mb request.min_vram_mb
      then false
      else true

  unfoldable pub filter_unavailable : ℕ → List (WorkerInfo F) → ℤ → List (WorkerInfo F)
  filter_unavailable now workers ttl = filter_by (is_fresh now (effective_ttl ttl)) workers

  unfoldable pub filter_by_model : List (WorkerInfo F) → String → List (WorkerInfo F)
  filter_by_model workers model_name = filter_by (λ w. has_loaded model_name w.models) workers

  unfoldable pub filter_by_vram : ModelRequest → List (WorkerInfo F) → List (WorkerInfo F)
  filter_by_vram request workers = filter_by (has_vram request) workers

  unfoldable pub filter_by_allowed_models : ModelRequest → List (WorkerInfo F) → List (WorkerInfo F)
  filter_by_allowed_models request workers = filter_by (is_willing request) workers
