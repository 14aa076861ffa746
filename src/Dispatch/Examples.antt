-- ===== src/Dispatch/Examples.antt =====
-- A fleet in which the first worker is at its limit, the second breaks and the third answers.
use infermesh.Prelude.{
  ℕ, ◌≡◌, refl, subst, String, false, none, some, List, [], ◌∷◌, arith, str_eq, if◌then◌else◌,
}
use infermesh.Dispatch.{
  Attempt, Result, ok, err, err_no_matching_workers, http_error, is_retryable_error,
  dispatch_with_failover, write_failover_error, err_conn_closed,
}
use infermesh.Candidates.Examples.{addr, format, algo, fleet as two_workers}
use infermesh.Floats.Fixed.{fixed}
use infermesh.Dispatch.Routed.{View, routed, routed-Asks}
use infermesh.Dispatch.Failover.{limited, failed, dispatch_succeeds}
use infermesh.Dispatch.Outcomes.{Excludes, Asks}
use infermesh.Dispatch.Response.{FromWorker, FromWorkers, Answer, dispatch-write_failover_error}

-- The workers are named by their place in the order of the scores.
abbrev choice : List String → Result String
choice [] = ok "a"
choice (_ ∷ []) = ok "b"
choice (_ ∷ _ ∷ []) = ok "c"
choice (_ ∷ _ ∷ _ ∷ _) = err (err_no_matching_workers ∷ [])

abbrev fleet : ℕ → Attempt ℕ
fleet k = record {
  ctx_err = none;
  select_excluding = choice;
  is_rate_limited = λ w. str_eq w "a";
  complete = λ w. if str_eq w "c" then ok 42 else err (err_conn_closed ∷ []);
}

dispatch_succeeds_example : (dispatch_with_failover fleet "llama" 3).0 ≡ ok 42
dispatch_succeeds_example = dispatch_succeeds fleet "llama" 3 2 42 (omega arith) (
  "a" ∷ [],
  limited "a" refl refl refl,
  (
    "b" ∷ "a" ∷ [],
    failed "b" (err_conn_closed ∷ []) refl refl refl refl (unfold is_retryable_error in refl),
    record { worker = "c"; in_time = refl; selected = refl; admitted = refl; completed = refl },
  ),
)

-- A fleet of one worker, which refuses the request.
abbrev strict : ℕ → Attempt ℕ
strict k = record {
  ctx_err = none;
  select_excluding =
      λ excluded. elim excluded [ [] ↦ ok "a" | _ ∷ _ ↦ err (err_no_matching_workers ∷ []) ];
  is_rate_limited = λ w. false;
  complete = λ w. err (http_error 400 ∷ []);
}

strict-Excludes : Excludes strict
strict-Excludes k [] w h m = elim m [ ]
strict-Excludes k (x ∷ xs) w h m = cc

abbrev Fair : Result ℕ → Type 0
Fair (ok body) = Unit
Fair (err e) = FromWorker e

strict-FromWorkers : FromWorkers strict
strict-FromWorkers k w e h = subst Fair h (record {
  not_canceled = refl;
  not_unmatched = refl;
  not_unavailable = refl;
  not_exhausted = refl;
})

refused : (dispatch_with_failover strict "llama" 3).0 ≡ err (http_error 400 ∷ [])
unfolding dispatch_with_failover
refused = refl

dispatch-write_failover_error_example :
    Answer (write_failover_error (some (http_error 400 ∷ []))).status (http_error 400 ∷ [])
dispatch-write_failover_error_example =
    dispatch-write_failover_error strict "llama" 3 (http_error 400 ∷ []) strict-FromWorkers refused

-- The turns of a router that knows two workers.
abbrev view : View fixed
view = record {
  now = 2000;
  include_unloaded = false;
  load_model = λ w. false;
  load = λ w. none;
  throughput = λ w. none;
  cache = two_workers;
}

routed-Asks_example :
    Asks 3 []
      (dispatch_with_failover
        (routed fixed addr format algo (λ ws. ws) (λ vs. vs) "llama3-8b" (λ k. view) fleet)
        "llama3-8b"
        3).1
routed-Asks_example =
    routed-Asks fixed addr format algo (λ ws. ws) (λ vs. vs) "llama3-8b" (λ k. view) fleet 3
      (λ x ws h. h)
