-- ===== src/Dispatch/Routed.antt =====
-- The loop of `dispatchWithFailover` with the choice of `selectWorkerExcluding`, both of
-- pkg/router/dispatch.go.
use infermesh.Prelude.{
  ℕ, ◌≡◌, refl, subst, sym, ap, String, Bool, Option, List, [], ◌∷◌, Memᴰ, ℤ, ◌==◌, if◌then◌else◌,
}
use infermesh.Protocol.{WorkerInfo}
use infermesh.Protocol as P
use infermesh.Floats.{Float64}
use infermesh.Scheduler as Sched
use infermesh.Scheduler.Select.{ScoringAlgorithm}
use infermesh.Candidates.{WorkerQueueStats, select_worker_excluding}
use infermesh.Candidates.Exclusion.{select_worker_excluding-excluded}
use infermesh.Dispatch.{
  Err, Result, ok, err, Attempt, err_no_matching_workers, err_all_workers_unavailable, other,
  dispatch_with_failover,
}
use infermesh.Dispatch.Outcomes.{Asks, dispatch-Asks}

abbrev sentinel : Sched.Error → Err
sentinel Sched.no_matching_workers = err_no_matching_workers ∷ []
sentinel Sched.all_workers_unavailable = err_all_workers_unavailable ∷ []
sentinel Sched.no_capacity = other "no capacity" ∷ []
sentinel Sched.worker_unavailable = other "worker unavailable" ∷ []

module _ (fl : Float64) where
  open fl use {Val}

  abbrev named : Sched.Result (P.WorkerInfo Val) → Result String
  named (Sched.ok w) = ok w.id
  named (Sched.err e) = err (sentinel e)

  -- What the selection finds of the router at one turn.
  pub record View : Type 0 where
    pub now : ℕ
    pub include_unloaded : Bool
    pub load_model : P.WorkerInfo Val → Bool
    pub load : P.WorkerInfo Val → Option (WorkerQueueStats Val)
    pub throughput : P.WorkerInfo Val → Option Val
    pub cache : List (P.WorkerInfo Val)

  module _ (addr : String → ℤ → String) (format : Val → String) (algo : ScoringAlgorithm Val)
      (sort : List (P.WorkerInfo Val) → List (P.WorkerInfo Val))
      (sort_views : List (Sched.WorkerInfo Val) → List (Sched.WorkerInfo Val))
      (model : String) where
    abbrev pub selects : View → List String → Sched.Result (P.WorkerInfo Val)
    selects v excluded =
        select_worker_excluding fl addr format algo v.now v.include_unloaded v.load_model sort
          sort_views v.load v.throughput model v.cache excluded

    -- The turns of a dispatch of the router, which finds the view `views k` at the turn `k`.
    abbrev pub routed : {Body : Type 0} → (ℕ → View) → (ℕ → Attempt Body) → ℕ → Attempt Body
    routed views turns k = record (turns k) {
      select_excluding = λ excluded. named (selects (views k) excluded);
    }

    named-id :
        (r : Sched.Result (P.WorkerInfo Val)) (id : String) (excluded : List String)
        → ((w : P.WorkerInfo Val) → r ≡ Sched.ok w → ¬ Memᴰ w.id excluded)
        → named r ≡ ok id
        → ¬ Memᴰ id excluded
    named-id (Sched.ok w) id excluded f h m =
        f w refl (subst (λ i. Memᴰ i excluded) (sym (ap got h)) m)
      where
        got : Result String → String
        got (ok i) = i
        got (err e) = w.id
    named-id (Sched.err e) id excluded f h m = cc

    -- Where `sort` brings no worker into a list, a dispatch of the router, whatever its cache, load and
    -- scores at each turn, sends the request to no worker twice, and to at most as many as it has
    -- attempts.
    pub routed-Asks :
        {Body : Type 0} (views : ℕ → View) (turns : ℕ → Attempt Body) (max : ℕ)
        → ((x : P.WorkerInfo Val) (ws : List (P.WorkerInfo Val)) → Memᴰ x (sort ws) → Memᴰ x ws)
        → Asks
            (if max == 0 then 1 else max)
            []
            (dispatch_with_failover (routed views turns) model max).1
    routed-Asks views turns max s = dispatch-Asks (routed views turns) model max (λ k excluded id h.
        named-id (selects (views k) excluded) id excluded
          (λ w e.
            select_worker_excluding-excluded fl addr format algo (views k).now
              (views k).include_unloaded (views k).load_model sort sort_views (views k).load
              (views k).throughput model (views k).cache excluded w s e)
          h)
