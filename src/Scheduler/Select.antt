-- ===== src/Scheduler/Select.antt =====
-- `SelectWorker` of pkg/scheduler/scheduler.go, for any scoring algorithm.
pub mod Best
pub mod Outcomes
use infermesh.Prelude.{
  ℕ, ◌≡◌, refl, sym, ap, ◌∙◌, ◌⊎◌, inl, inr, String, Bool, true, false, Option, none, some, List,
  [], ◌∷◌, ◌++◌, Memᴰ, arith, if◌then◌else◌, Bool-cases, ℤ, All, All-append, All-map, filter_by,
}
use infermesh.Floats.{Float64, Ordered}
use infermesh.Scheduler.{
  ModelRequest, WorkerInfo, Error, no_matching_workers, all_workers_unavailable, Result, ok, err,
  effective_ttl, is_fresh, is_willing, filter_unavailable, filter_by_allowed_models,
}

-- The interface of a scoring algorithm. `score` is given the time at which it runs.
pub record ScoringAlgorithm (F : Type 0) : Type 0 where
  pub name : String
  pub score : ℕ → ModelRequest → WorkerInfo F → Result F
  pub get_unavailable_ttl : ℤ

pub record SelectedWorker (F : Type 0) : Type 0 where
  pub worker : WorkerInfo F
  pub score : F
  pub reason : String

module _ (fl : Float64) where
  open fl use {Val, ltb}

  -- The body of the scoring loop; `none` is `found == false`.
  consider :
      Result Val → WorkerInfo Val → Option (WorkerInfo Val × Val) → Option (WorkerInfo Val × Val)
  consider (err e) w best = best
  consider (ok s) w none = some (w, s)
  consider (ok s) w (some (b, t)) = if ltb t s then some (w, s) else some (b, t)

  score_loop :
      (WorkerInfo Val → Result Val)
      → List (WorkerInfo Val)
      → Option (WorkerInfo Val × Val)
      → Option (WorkerInfo Val × Val)
  score_loop score [] best = best
  score_loop score (w ∷ ws) best = score_loop score ws (consider (score w) w best)

  -- `format` is fmt.Sprintf with "best score: %.2f".
  report : (Val → String) → Option (WorkerInfo Val × Val) → Result (SelectedWorker Val)
  report format none = err no_matching_workers
  report format (some (w, s)) = ok (record { worker = w; score = s; reason = format s })

  choose :
      (Val → String)
      → (WorkerInfo Val → Result Val)
      → List (WorkerInfo Val)
      → Result (SelectedWorker Val)
  unfolding consider score_loop report
  choose format score [] = err no_matching_workers
  choose format score (w ∷ ws) = report format (score_loop score (w ∷ ws) none)

  choose_willing :
      (Val → String)
      → (WorkerInfo Val → Result Val)
      → ModelRequest
      → List (WorkerInfo Val)
      → Result (SelectedWorker Val)
  unfolding choose
  choose_willing format score request [] = err all_workers_unavailable
  choose_willing format score request (w ∷ ws) =
      choose format score (filter_by_allowed_models request (w ∷ ws))

  unfoldable pub select_worker :
      (Val → String)
      → ScoringAlgorithm Val
      → ℕ
      → ModelRequest
      → List (WorkerInfo Val)
      → ℤ
      → Result (SelectedWorker Val)
  unfolding choose_willing
  select_worker format algo now request [] ttl = err no_matching_workers
  select_worker format algo now request (w ∷ ws) ttl =
      choose_willing format (algo.score now request) request (filter_unavailable now (w ∷ ws) ttl)
