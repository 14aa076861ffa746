-- ===== src/ModelHealth.antt =====
-- pkg/worker/model_health.go: the health of a backend's model. Times are nanoseconds on the clock of the
-- calls, and the mutex makes each method one step. Metrics are opaque.
pub mod Checks
mod Examples
use infermesh.Prelude.{
  ℕ, zero, suc, ◌+◌, ◌≡◌, refl, ap, ◌∙◌, Bool, true, false, not, ◌&&◌, List, [], ◌∷◌, arith,
  if◌then◌else◌, Bool-cases, inl, inr,
}

pub data HealthStatus : Type 0 where
  healthy degraded unhealthy unknown : HealthStatus

pub record ModelHealthTracker (M : Type 0) : Type 0 where
  pub last_health_check : ℕ
  pub health_status : HealthStatus
  pub consecutive_failures : ℕ
  pub metrics : M
  pub enabled : Bool

abbrev pub is_healthy : HealthStatus → Bool
is_healthy healthy = true
is_healthy degraded = false
is_healthy unhealthy = false
is_healthy unknown = false

pub data Call (M : Type 0) : Type 0 where
  sets_enabled : Bool → Call M
  records : ℕ → HealthStatus → M → Call M

module _ {M : Type 0} where
  -- `none_yet` is the zero value of the metrics.
  unfoldable pub new_model_health_tracker : M → Bool → ModelHealthTracker M
  new_model_health_tracker none_yet enabled = record {
    last_health_check = 0;
    health_status = unknown;
    consecutive_failures = 0;
    metrics = none_yet;
    enabled = enabled;
  }

  unfoldable pub set_enabled : Bool → ModelHealthTracker M → ModelHealthTracker M
  set_enabled enabled t = record t { enabled = enabled }

  -- `RecordHealthCheck` at time `now`.
  unfoldable pub record_health_check :
      ℕ → HealthStatus → M → ModelHealthTracker M → ModelHealthTracker M
  record_health_check now status metrics t = if not t.enabled then t else record t {
    last_health_check = now;
    health_status = status;
    consecutive_failures = if is_healthy status then 0 else t.consecutive_failures + 1;
    metrics = metrics;
  }

  unfoldable pub step : ModelHealthTracker M → Call M → ModelHealthTracker M
  unfolding set_enabled record_health_check
  step t (sets_enabled enabled) = set_enabled enabled t
  step t (records now status metrics) = record_health_check now status metrics t

  unfoldable pub run : ModelHealthTracker M → List (Call M) → ModelHealthTracker M
  unfolding step
  run t [] = t
  run t (call ∷ calls) = run (step t call) calls
