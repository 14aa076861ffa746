-- ===== src/ModelHealth/Checks.antt =====
-- The state of the tracker of pkg/worker/model_health.go, from the checks that it recorded.
use infermesh.Prelude.{
  ℕ, suc, ◌+◌, ◌≡◌, refl, ◌∙◌, Bool, true, false, ◌||◌, List, [], ◌∷◌, arith, if◌then◌else◌, length,
}
use infermesh.ModelHealth.{
  HealthStatus, healthy, degraded, unhealthy, unknown, ModelHealthTracker, is_healthy, Call,
  sets_enabled, records, new_model_health_tracker, set_enabled, record_health_check, step, run,
}

-- One of the statuses is healthy.
abbrev pub any_healthy : List HealthStatus → Bool
any_healthy [] = false
any_healthy (s ∷ ss) = is_healthy s || any_healthy ss

-- How many statuses stand after the last healthy one; all of them where there is none.
abbrev pub since_healthy : List HealthStatus → ℕ
since_healthy [] = 0
since_healthy (s ∷ ss) =
    let rest = since_healthy ss in if any_healthy ss || is_healthy s then rest else suc (length ss)

abbrev pub last_or : HealthStatus → List HealthStatus → HealthStatus
last_or s [] = s
last_or s (t ∷ ts) = last_or t ts

-- The failures after the statuses `ss`, from `n` before.
abbrev failures : ℕ → List HealthStatus → ℕ
failures n ss = if any_healthy ss then since_healthy ss else n + length ss

since_healthy-none :
    (ss : List HealthStatus) → any_healthy ss ≡ false → since_healthy ss ≡ length ss
since_healthy-none [] h = refl
since_healthy-none (s ∷ ss) h = ground (arith, h, since_healthy-none ss)

failures-cons :
    (n : ℕ) (s : HealthStatus) (ss : List HealthStatus)
    → failures (if is_healthy s then 0 else n + 1) ss ≡ failures n (s ∷ ss)
failures-cons n healthy ss = ground (arith, since_healthy-none ss)
failures-cons n degraded ss = ground (arith, since_healthy-none ss)
failures-cons n unhealthy ss = ground (arith, since_healthy-none ss)
failures-cons n unknown ss = ground (arith, since_healthy-none ss)

failures-zero : (ss : List HealthStatus) → failures 0 ss ≡ since_healthy ss
failures-zero ss = ground (arith, since_healthy-none ss)

module _ {M : Type 0} where
  -- The statuses that are recorded while the tracker is enabled.
  abbrev pub recorded : Bool → List (Call M) → List HealthStatus
  recorded enabled [] = []
  recorded enabled (sets_enabled on ∷ calls) = recorded on calls
  recorded enabled (records now status metrics ∷ calls) =
      let rest = recorded enabled calls in if enabled then status ∷ rest else rest

  abbrev tracker_of : ℕ → HealthStatus → ℕ → M → Bool → ModelHealthTracker M
  tracker_of last s n metrics enabled = record {
    last_health_check = last;
    health_status = s;
    consecutive_failures = n;
    metrics = metrics;
    enabled = enabled;
  }

  -- The tracker after the statuses `ss`, from a count and a status before.
  abbrev FollowsFrom : ℕ → HealthStatus → List HealthStatus → ModelHealthTracker M → Type 0
  FollowsFrom n s ss t = (t.consecutive_failures ≡ failures n ss) × (t.health_status ≡ last_or s ss)

  run-FollowsFrom :
      (last : ℕ) (s : HealthStatus) (n : ℕ) (metrics : M) (enabled : Bool) (calls : List (Call M))
      → FollowsFrom n s (recorded enabled calls) (run (tracker_of last s n metrics enabled) calls)
  unfolding run step set_enabled record_health_check
  run-FollowsFrom last s n metrics enabled [] = (omega arith, refl)
  run-FollowsFrom last s n metrics enabled (sets_enabled on ∷ calls) =
      run-FollowsFrom last s n metrics on calls
  run-FollowsFrom last s n metrics true (records now status new ∷ calls) =
      let (f, h) =
        run-FollowsFrom now status (if is_healthy status then 0 else n + 1) new true calls in
      (f ∙ failures-cons n status (recorded true calls), h)
  run-FollowsFrom last s n metrics false (records now status new ∷ calls) =
      run-FollowsFrom last s n metrics false calls

  -- After any history, the count of consecutive failures is the number of checks after the last healthy
  -- one (all of them where there is none), and the status is that of the last check, or unknown; only
  -- the checks made while the tracker was enabled count, and turning it off and on resets nothing.
  pub run-new_model_health_tracker :
      (none_yet : M) (enabled : Bool) (calls : List (Call M))
      → ((run (new_model_health_tracker none_yet enabled) calls).consecutive_failures
          ≡ since_healthy (recorded enabled calls))
        × ((run (new_model_health_tracker none_yet enabled) calls).health_status
            ≡ last_or unknown (recorded enabled calls))
  unfolding new_model_health_tracker
  run-new_model_health_tracker none_yet enabled calls =
      let (f, h) = run-FollowsFrom 0 unknown 0 none_yet enabled calls in
      (f ∙ failures-zero (recorded enabled calls), h)
