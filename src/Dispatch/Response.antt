-- ===== src/Dispatch/Response.antt =====
-- `writeFailoverError` of pkg/router/dispatch.go on what `dispatchWithFailover` returns.
use infermesh.Prelude.{
  ℕ, ◌≡◌, ◌≢◌, refl, subst, ◌⊎◌, inl, inr, String, false, some, arith, Option-cases, ◌<◌,
}
use infermesh.Dispatch.{
  Err, is, as_http, canceled, err_no_matching_workers, err_all_workers_unavailable,
  err_all_attempts_failed, is_retryable_error, Result, ok, err, Attempt, dispatch_with_failover,
  write_failover_error,
}
use infermesh.Dispatch.Outcomes.{Outcome, answered, gave_up, failed_fast, dispatch-Outcome}

-- The errors of a worker's client are its own: it was not canceled, and they are not the scheduler's
-- or those of the loop.
pub record FromWorker (e : Err) : Type 0 where
  pub not_canceled : is canceled e ≡ false
  pub not_unmatched : is err_no_matching_workers e ≡ false
  pub not_unavailable : is err_all_workers_unavailable e ≡ false
  pub not_exhausted : is err_all_attempts_failed e ≡ false

-- A response of 503, or the status of the worker's own response, which is not one to retry.
abbrev pub Answer : ℕ → Err → Type 0
Answer status e =
    (status ≡ 503) ⊎ ((s : ℕ) × (as_http e ≡ some s) × ((status ≡ s) × (s < 500) × (s ≢ 429)))

-- The response to a worker's error that is not to be retried: its own status, or 503.
fails_fast_response :
    (e : Err)
    → FromWorker e
    → is_retryable_error e ≡ false
    → Answer (write_failover_error (some e)).status e
unfolding is_retryable_error write_failover_error
fails_fast_response e v h = elim (Option-cases (as_http e)) [
  | inl n ↦
      inl
        (ground (arith, h, n, v.not_canceled, v.not_unmatched, v.not_unavailable, v.not_exhausted))
  | inr (s, p) ↦ inr (
    s,
    p,
    (
      ground (arith, h, p, v.not_canceled, v.not_unmatched, v.not_unavailable, v.not_exhausted),
      ground (arith, h, p, v.not_canceled, v.not_unmatched, v.not_unavailable, v.not_exhausted),
      ground (arith, h, p, v.not_canceled, v.not_unmatched, v.not_unavailable, v.not_exhausted),
    ),
  )
]

module _ {Body : Type 0} where
  -- What the clients of the workers return are the workers' own errors.
  abbrev pub FromWorkers : (ℕ → Attempt Body) → Type 0
  FromWorkers attempts =
      (k : ℕ) (w : String) (e : Err) → (attempts k).complete w ≡ err e → FromWorker e

  abbrev Answers : Result Body → Type 0
  Answers (ok body) = Unit
  Answers (err e) = Answer (write_failover_error (some e)).status e

  Outcome-Answers :
      (attempts : ℕ → Attempt Body) (r : Result Body)
      → FromWorkers attempts
      → Outcome attempts r
      → Answers r
  Outcome-Answers attempts r f (answered k w body c) = tt
  Outcome-Answers attempts r f (gave_up e) = inl (unfold write_failover_error in refl)
  Outcome-Answers attempts r f (failed_fast k w e c n) = fails_fast_response e (f k w e c) n

  -- Where the errors of the workers' clients are neither canceled nor the scheduler's nor the loop's
  -- own, a dispatch that fails is answered with a 503, or with the status of a worker's own response,
  -- below 500 and not 429: never with a 504, not even when its time runs out.
  pub dispatch-write_failover_error :
      (attempts : ℕ → Attempt Body) (model : String) (max : ℕ) (e : Err)
      → FromWorkers attempts
      → (dispatch_with_failover attempts model max).0 ≡ err e
      → Answer (write_failover_error (some e)).status e
  dispatch-write_failover_error attempts model max e f h =
      subst Answers h (Outcome-Answers attempts _ f (dispatch-Outcome attempts model max))
