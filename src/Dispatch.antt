-- ===== src/Dispatch.antt =====
-- pkg/router/dispatch.go: dispatching a request with failover from worker to worker, and the response
-- to its errors. The hub, the counter and the tracker of the server are there. What they are told is a
-- list of effects. What one turn of the loop finds of the rest of the server is an `Attempt`.
pub mod Turn
pub mod Failover
pub mod Outcomes
pub mod Response
pub mod Routed
mod Examples
use infermesh.Prelude.{
  ℕ, suc, zero, String, Bool, true, false, ◌&&◌, ◌||◌, Option, none, some, List, [], ◌∷◌, ◌++◌, leb,
  ◌==◌, if◌then◌else◌,
}

-- The errors that the code tells apart. `http_error` is a `WorkerHTTPError`.
pub data Sentinel : Type 0 where
  err_no_matching_workers err_all_workers_unavailable canceled deadline_exceeded err_timeout
        err_conn_closed err_relay_disconnected err_rate_limited err_worker_inference_error
        err_all_attempts_failed :
      Sentinel
  http_error : ℕ → Sentinel
  other : String → Sentinel

-- An error is what it wraps, in the order in which `errors.Is` meets it.
abbrev pub Err : Type 0
Err = List Sentinel

-- Which of the sentinels it is; the other errors are no target of `errors.Is` here.
abbrev pub code : Sentinel → ℕ
code err_no_matching_workers = 1
code err_all_workers_unavailable = 2
code canceled = 3
code deadline_exceeded = 4
code err_timeout = 5
code err_conn_closed = 6
code err_relay_disconnected = 7
code err_rate_limited = 8
code err_worker_inference_error = 9
code err_all_attempts_failed = 10
code (http_error s) = 11
code (other s) = 12

-- `errors.Is`
abbrev pub is : Sentinel → Err → Bool
is target [] = false
is target (e ∷ es) = (code e == code target) || is target es

-- `errors.As` with a `WorkerHTTPError`: its status.
abbrev pub as_http : Err → Option ℕ
as_http [] = none
as_http (http_error s ∷ es) = some s
as_http (_ ∷ es) = as_http es

retryable_status : Option ℕ → Bool
retryable_status none = false
retryable_status (some s) = if leb 500 s then true else if s == 429 then true else false

unfoldable pub is_retryable_error : Err → Bool
unfolding retryable_status
is_retryable_error e =
    if is canceled e
    then false
    else if is err_no_matching_workers e || is err_all_workers_unavailable e
    then false
    else if is err_timeout e
    then true
    else if is err_conn_closed e
    then true
    else if is err_relay_disconnected e
    then true
    else if is err_rate_limited e
    then true
    else if is err_worker_inference_error e
    then true
    else if is deadline_exceeded e
    then true
    else retryable_status (as_http e)

pub data Result {ℓ} (A : Type ℓ) : Type ℓ where
  ok : A → Result A
  err : Err → Result A

-- What the counter, the hub and the tracker are told.
pub data Effect : Type 0 where
  records : String → Effect
  rejects : String → ℕ → Effect
  begins : String → Effect
  finishes : String → Bool → Effect

-- What a turn of the loop finds: the error of the context, the choice of `selectWorkerExcluding`,
-- the answer of `isRateLimited`, and what the worker's client returns.
pub record Attempt (Body : Type 0) : Type 0 where
  pub ctx_err : Option Err
  pub select_excluding : List String → Result String
  pub is_rate_limited : String → Bool
  pub complete : String → Result Body

pub exhausted : Option Err → Err
exhausted none = err_all_attempts_failed ∷ other "no worker available for model" ∷ []
exhausted (some e) = err_all_attempts_failed ∷ e

-- `counter.Record`, once for a request.
abbrev pub record_once : Bool → String → List Effect
record_once true model = []
record_once false model = records model ∷ []

module _ {Body : Type 0} where
  abbrev pub after : List Effect → Result Body × List Effect → Result Body × List Effect
  after es (r, fs) = (r, es ++ fs)

  -- The turns that are left, the first of them the turn `k`.
  pub failover_loop :
      (ℕ → Attempt Body)
      → String
      → ℕ
      → ℕ
      → List String
      → Option Err
      → Bool
      → Result Body × List Effect
  unfolding exhausted is_retryable_error
  failover_loop attempts model zero k excluded last recorded = (err (exhausted last), [])
  failover_loop attempts model (suc n) k excluded last recorded = elim (attempts k).ctx_err [
    | some e ↦ (err (err_all_attempts_failed ∷ e), [])
    | none ↦ elim ((attempts k).select_excluding excluded) [
      | err e ↦ failover_loop attempts model n (suc k) excluded (some e) recorded
      | ok w ↦ after (record_once recorded model) (elim ((attempts k).is_rate_limited w) [
        | true ↦ after (rejects w 429 ∷ []) (
            failover_loop attempts model n (suc k) (w ∷ excluded) (some (err_rate_limited ∷ []))
              true)
        | false ↦ after (begins w ∷ []) (elim ((attempts k).complete w) [
          | ok body ↦ (ok body, finishes w true ∷ [])
          | err e ↦ after (finishes w false ∷ []) (elim (is_retryable_error e) [
            | true ↦ failover_loop attempts model n (suc k) (w ∷ excluded) (some e) true
            | false ↦ (err e, [])
          ])
        ])
      ])
    ]
  ]

  -- `max_attempts < 1` counts as 1.
  unfoldable pub dispatch_with_failover :
      (ℕ → Attempt Body) → String → ℕ → Result Body × List Effect
  unfolding failover_loop
  dispatch_with_failover attempts model max_attempts =
      failover_loop attempts model (if max_attempts == 0 then 1 else max_attempts) 0 [] none false

pub record ErrorResponse : Type 0 where
  pub status : ℕ
  pub error_code : String

pass_http : Option ℕ → ErrorResponse → ErrorResponse
pass_http none rest = rest
pass_http (some s) rest = record { status = s; error_code = "worker_error" }

-- The status and the code of the response; `none` is a nil error.
unfoldable pub write_failover_error : Option Err → ErrorResponse
unfolding pass_http
write_failover_error none = record { status = 500; error_code = "internal_error" }
write_failover_error (some e) =
    if is err_all_attempts_failed e
    then record { status = 503; error_code = "all_attempts_failed" }
    else if is deadline_exceeded e
    then record { status = 504; error_code = "timeout_error" }
    else pass_http (as_http e) (
        if is err_timeout e
        then record { status = 504; error_code = "timeout_error" }
        else if is err_conn_closed e || is err_relay_disconnected e
        then record { status = 503; error_code = "connection_error" }
        else record { status = 503; error_code = "no_workers" })
