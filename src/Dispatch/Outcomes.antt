-- ===== src/Dispatch/Outcomes.antt =====
-- What `dispatchWithFailover` of pkg/router/dispatch.go can return, and whom it asks.
use infermesh.Prelude.{
  ℕ, suc, zero, ◌≤◌, ◌≡◌, String, Bool, true, false, Option, none, some, List, [], ◌∷◌, Memᴰ, arith,
  length, ◌==◌, if◌then◌else◌,
}
use infermesh.Dispatch.{
  Err, err_rate_limited, err_all_attempts_failed, is_retryable_error, Result, ok, err, Effect,
  rejects, begins, finishes, Attempt, exhausted, failover_loop, dispatch_with_failover,
}
use infermesh.Dispatch.Turn.{
  Turn, turn, expires, no_worker, skips, answers, retries, fails_fast, began, began-record_once,
}

-- None of the workers is in the list, nor asked earlier.
abbrev pub Untried : List String → List String → Type 0
Untried excluded [] = Unit
Untried excluded (w ∷ ws) = (¬ Memᴰ w excluded) × Untried (w ∷ excluded) ws

Untried-fewer :
    (excluded more ws : List String)
    → ((x : String) → Memᴰ x excluded → Memᴰ x more)
    → Untried more ws
    → Untried excluded ws
Untried-fewer excluded more [] s u = tt
Untried-fewer excluded more (w ∷ ws) s u =
    (λ h. u.0 (s w h), Untried-fewer (w ∷ excluded) (w ∷ more) ws (under w) u.1)
  where
    under : (w x : String) → Memᴰ x (w ∷ excluded) → Memᴰ x (w ∷ more)
    under w x (Memᴰ.head e) = Memᴰ.head e
    under w x (Memᴰ.tail h) = Memᴰ.tail (s x h)

-- At most `n` workers are asked, none of them excluded and none twice.
abbrev pub Asks : ℕ → List String → List Effect → Type 0
Asks n excluded es = (length (began es) ≤ n) × Untried excluded (began es)

weaken : (excluded ws : List String) (w : String) → Untried (w ∷ excluded) ws → Untried excluded ws
weaken excluded ws w u = Untried-fewer excluded (w ∷ excluded) ws (λ x h. Memᴰ.tail h) u

module _ {Body : Type 0} where
  -- The ways in which a dispatch ends: a worker's answer, an error that wraps `errAllAttemptsFailed`, or
  -- a worker's error that is not to be retried.
  pub data Outcome (attempts : ℕ → Attempt Body) : Result Body → Type 0 where
    answered :
        (k : ℕ) (w : String) (body : Body)
        → (attempts k).complete w ≡ ok body
        → Outcome attempts (ok body)
    gave_up : (e : Err) → Outcome attempts (err (err_all_attempts_failed ∷ e))
    failed_fast :
        (k : ℕ) (w : String) (e : Err)
        → (attempts k).complete w ≡ err e
        → is_retryable_error e ≡ false
        → Outcome attempts (err e)

  turn-Outcome :
      (attempts : ℕ → Attempt Body) (model : String) (k : ℕ) (excluded : List String)
      (recorded : Bool) (next : List String → Option Err → Bool → Result Body × List Effect)
      (r : Result Body × List Effect)
      → Turn (attempts k) model excluded recorded next r
      → ((ex : List String) (last : Option Err) (b : Bool) → Outcome attempts (next ex last b).0)
      → Outcome attempts r.0
  turn-Outcome attempts model k excluded recorded next r (expires e) h = gave_up e
  turn-Outcome attempts model k excluded recorded next r (no_worker e) h =
      h excluded (some e) recorded
  turn-Outcome attempts model k excluded recorded next r (skips w s) h =
      h (w ∷ excluded) (some (err_rate_limited ∷ [])) true
  turn-Outcome attempts model k excluded recorded next r (answers w body s l c) h =
      answered k w body c
  turn-Outcome attempts model k excluded recorded next r (retries w e s l c t) h =
      h (w ∷ excluded) (some e) true
  turn-Outcome attempts model k excluded recorded next r (fails_fast w e s l c t) h =
      failed_fast k w e c t

  exhausted-Outcome :
      (attempts : ℕ → Attempt Body) (last : Option Err) → Outcome attempts (err (exhausted last))
  unfolding exhausted
  exhausted-Outcome attempts none = gave_up _
  exhausted-Outcome attempts (some e) = gave_up e

  loop-Outcome :
      (attempts : ℕ → Attempt Body) (model : String) (n k : ℕ) (excluded : List String)
      (last : Option Err) (recorded : Bool)
      → Outcome attempts (failover_loop attempts model n k excluded last recorded).0
  unfolding failover_loop
  loop-Outcome attempts model zero k excluded last recorded = exhausted-Outcome attempts last
  loop-Outcome attempts model (suc n) k excluded last recorded =
      turn-Outcome attempts model k excluded recorded (failover_loop attempts model n (suc k)) _
        (turn attempts model n k excluded last recorded) (loop-Outcome attempts model n (suc k))

  -- Every dispatch ends, with the answer of a worker, with an error that wraps `errAllAttemptsFailed`,
  -- or with the error of a worker that is not to be retried.
  pub dispatch-Outcome :
      (attempts : ℕ → Attempt Body) (model : String) (max : ℕ)
      → Outcome attempts (dispatch_with_failover attempts model max).0
  unfolding dispatch_with_failover
  dispatch-Outcome attempts model max =
      loop-Outcome attempts model (if max == 0 then 1 else max) 0 [] none false

  -- The selection leaves out the excluded workers.
  abbrev pub Excludes : (ℕ → Attempt Body) → Type 0
  Excludes attempts =
      (k : ℕ) (excluded : List String) (w : String)
      → (attempts k).select_excluding excluded ≡ ok w
      → ¬ Memᴰ w excluded

  turn-Asks :
      (attempts : ℕ → Attempt Body) (model : String) (n k : ℕ) (excluded : List String)
      (recorded : Bool) (next : List String → Option Err → Bool → Result Body × List Effect)
      (r : Result Body × List Effect)
      → Excludes attempts
      → Turn (attempts k) model excluded recorded next r
      → ((ex : List String) (last : Option Err) (b : Bool) → Asks n ex (next ex last b).1)
      → Asks (suc n) excluded r.1
  turn-Asks attempts model n k excluded recorded next r x (expires e) h = (omega arith, tt)
  turn-Asks attempts model n k excluded recorded next r x (no_worker e) h =
      let (l, u) = h excluded (some e) recorded in (omega arith, u)
  turn-Asks attempts model n k excluded recorded next r x (skips w s) h =
      let (l, u) = h (w ∷ excluded) (some (err_rate_limited ∷ [])) true in
      rw
        (began-record_once recorded model
          (rejects w 429 ∷ (next (w ∷ excluded) (some (err_rate_limited ∷ [])) true).1))
        (omega arith, weaken excluded _ w u)
  turn-Asks attempts model n k excluded recorded next r x (answers w body s l c) h =
      rw (began-record_once recorded model (begins w ∷ finishes w true ∷ []))
        (omega arith, (x k excluded w s, tt))
  turn-Asks attempts model n k excluded recorded next r x (retries w e s l c t) h =
      let (l, u) = h (w ∷ excluded) (some e) true in
      rw
        (began-record_once recorded model
          (begins w ∷ finishes w false ∷ (next (w ∷ excluded) (some e) true).1))
        (omega arith, (x k excluded w s, u))
  turn-Asks attempts model n k excluded recorded next r x (fails_fast w e s l c t) h =
      rw (began-record_once recorded model (begins w ∷ finishes w false ∷ []))
        (omega arith, (x k excluded w s, tt))

  loop-Asks :
      (attempts : ℕ → Attempt Body) (model : String) (n k : ℕ) (excluded : List String)
      (last : Option Err) (recorded : Bool)
      → Excludes attempts
      → Asks n excluded (failover_loop attempts model n k excluded last recorded).1
  unfolding failover_loop
  loop-Asks attempts model zero k excluded last recorded x = (omega arith, tt)
  loop-Asks attempts model (suc n) k excluded last recorded x =
      turn-Asks attempts model n k excluded recorded (failover_loop attempts model n (suc k)) _ x
        (turn attempts model n k excluded last recorded)
        (λ ex l b. loop-Asks attempts model n (suc k) ex l b x)

  -- Where the selection leaves out the excluded workers, a dispatch sends the request to no worker
  -- twice, and to at most as many as it has attempts.
  pub dispatch-Asks :
      (attempts : ℕ → Attempt Body) (model : String) (max : ℕ)
      → Excludes attempts
      → Asks (if max == 0 then 1 else max) [] (dispatch_with_failover attempts model max).1
  unfolding dispatch_with_failover
  dispatch-Asks attempts model max x =
      loop-Asks attempts model (if max == 0 then 1 else max) 0 [] none false x
