-- ===== src/Protocol.antt =====
-- pkg/protocol/worker.go: what workers announce, and the events of discovery. `F` is float64. Ports,
-- sizes and counts are integers of Go and do not wrap.
use infermesh.Prelude.{ℕ, String, Bool, List, ℤ}

-- `WorkerStatus` is a string: a worker may announce any.
abbrev pub status_available : String
status_available = "available"

abbrev pub status_busy : String
status_busy = "busy"

abbrev pub status_unavailable : String
status_unavailable = "unavailable"

pub record GpuInfo : Type 0 where
  pub vendor : String
  pub model : String
  pub compute_core : ℤ
  pub total_vram : ℤ
  pub free_vram : ℤ

pub record MemoryInfo : Type 0 where
  pub total_mb : ℤ
  pub free_mb : ℤ

pub record ModelInfo : Type 0 where
  pub name : String
  pub size : ℤ
  pub quantization : String
  pub max_tokens : ℤ
  pub backend : String
  pub loaded : Bool

pub record InferenceStatsSnapshot (F : Type 0) : Type 0 where
  pub model : String
  pub tokens_per_second : F
  pub avg_ttft_ms : F
  pub avg_prompt_tokens : F
  pub avg_completion_tokens : F
  pub samples : ℤ

pub record Capabilities (F : Type 0) : Type 0 where
  pub gpu : GpuInfo
  pub models : List ModelInfo
  pub engines : List String
  pub vram : MemoryInfo
  pub system : MemoryInfo
  pub allowed_models : List String
  pub excluded_models : List String
  pub concurrency_cap : ℤ
  pub threads : ℤ
  pub inference_stats : List (InferenceStatsSnapshot F)

pub record WorkerInfo (F : Type 0) : Type 0 where
  pub id : String
  pub hostname : String
  pub ip : String
  pub port : ℤ
  pub capabilities : Capabilities F
  pub status : String
  pub version : String
  pub transport : String
  pub api_key : String
  pub last_seen : ℕ

pub data DiscoveryEventType : Type 0 where
  added updated removed expired : DiscoveryEventType

pub record DiscoveryEvent (F : Type 0) : Type 0 where
  pub type_ : DiscoveryEventType
  pub worker : WorkerInfo F
  pub time : ℕ
