-- ===== src/Dispatch/Failover.antt =====
-- The loop of `dispatchWithFailover` in pkg/router/dispatch.go.
use infermesh.Prelude.{
  ℕ, suc, zero, ◌<◌, ◌≡◌, refl, ◌∙◌, String, Bool, true, false, Option, none, some, List, [], ◌∷◌,
  arith, ◌==◌, if◌then◌else◌,
}
use infermesh.Dispatch.{
  Err, err_rate_limited, is_retryable_error, ok, err, Attempt, failover_loop,
  dispatch_with_failover,
}

module _ {Body : Type 0} where
  -- A turn that ends in another one: what it found, and the workers that are excluded before and after.
  pub data Retried (a : Attempt Body) (excluded : List String) : List String → Type 0 where
    no_worker :
        (e : Err)
        → a.ctx_err ≡ none
        → a.select_excluding excluded ≡ err e
        → Retried a excluded excluded
    limited :
        (w : String)
        → a.ctx_err ≡ none
        → a.select_excluding excluded ≡ ok w
        → a.is_rate_limited w ≡ true
        → Retried a excluded (w ∷ excluded)
    failed :
        (w : String) (e : Err)
        → a.ctx_err ≡ none
        → a.select_excluding excluded ≡ ok w
        → a.is_rate_limited w ≡ false
        → a.complete w ≡ err e
        → is_retryable_error e ≡ true
        → Retried a excluded (w ∷ excluded)

  -- A turn in which a worker answers.
  pub record Answered (a : Attempt Body) (excluded : List String) (body : Body) : Type 0 where
    pub worker : String
    pub in_time : a.ctx_err ≡ none
    pub selected : a.select_excluding excluded ≡ ok worker
    pub admitted : a.is_rate_limited worker ≡ false
    pub completed : a.complete worker ≡ ok body

  -- From the turn `k` on, `n` turns end in another one, and in the next a worker answers.
  abbrev pub Reaches : (ℕ → Attempt Body) → ℕ → ℕ → List String → Body → Type 0
  Reaches attempts k zero excluded body = Answered (attempts k) excluded body
  Reaches attempts k (suc n) excluded body =
      (excluded' : List String) × Retried (attempts k) excluded excluded'
      × Reaches attempts (suc k) n excluded' body

  Retried-loop :
      (attempts : ℕ → Attempt Body) (model : String) (n k : ℕ) (excluded excluded' : List String)
      (last : Option Err) (recorded : Bool)
      → Retried (attempts k) excluded excluded'
      → (last' : Option Err) × (recorded' : Bool) × ((failover_loop attempts model
            (suc n)
            k
            excluded
            last
            recorded).0
          ≡ (failover_loop attempts model n (suc k) excluded' last' recorded').0)
  unfolding failover_loop
  Retried-loop attempts model n k excluded excluded' last recorded (no_worker e i s) =
      (some e, recorded, rw (i, failover_loop, s) refl)
  Retried-loop attempts model n k excluded excluded' last recorded (limited w i s l) =
      (some (err_rate_limited ∷ []), true, rw (i, failover_loop, s, l) refl)
  Retried-loop attempts model n k excluded excluded' last recorded (failed w e i s l c r) =
      (some e, true, rw (i, failover_loop, s, l, c, r) refl)

  Reaches-loop :
      (attempts : ℕ → Attempt Body) (model : String) (m n k : ℕ) (excluded : List String)
      (last : Option Err) (recorded : Bool) (body : Body)
      → n < m
      → Reaches attempts k n excluded body
      → (failover_loop attempts model m k excluded last recorded).0 ≡ ok body
  unfolding failover_loop
  Reaches-loop attempts model zero n k excluded last recorded body h r = absurd (omega (arith, h))
  Reaches-loop attempts model (suc m) zero k excluded last recorded body h r =
      rw (r.in_time, failover_loop, r.selected, r.admitted, r.completed) refl
  Reaches-loop attempts model (suc m) (suc n) k excluded last recorded body h r =
      let (last', recorded', e) = Retried-loop attempts model m k excluded r.0 last recorded r.1 in
      e ∙ Reaches-loop attempts model m n (suc k) r.0 last' recorded' body (omega arith) r.2

  -- When a worker answers in the turn after `n` that failed in a way to retry (no worker, one at its
  -- limit, or a retryable error), and `n` is below the number of attempts, the client gets its answer.
  pub dispatch_succeeds :
      (attempts : ℕ → Attempt Body) (model : String) (max n : ℕ) (body : Body)
      → n < max
      → Reaches attempts 0 n [] body
      → (dispatch_with_failover attempts model max).0 ≡ ok body
  unfolding dispatch_with_failover
  dispatch_succeeds attempts model max n body h r =
      Reaches-loop attempts model (if max == 0 then 1 else max) n 0 [] none false body
        (ground (arith, h)) r
