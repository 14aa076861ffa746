-- ===== src/Candidates/Exclusion.antt =====
-- The choice of a worker in pkg/router/dispatch.go leaves out the excluded workers.
use mathlib.Core.Option.{none-ne-some, some_inj}
use infermesh.Prelude.{
  ℕ, ◌≡◌, refl, sym, subst, ap, String, Bool, not, Option, none, some, List, [], ◌∷◌, map, Memᴰ,
  arith, str_eq, filter_by, filter_by_sound, Bool-cases, Option-cases, inl, inr, ℤ,
}
use infermesh.Protocol as P
use infermesh.Floats.{Float64}
use infermesh.Scheduler.{contains, Result, ok, err, filter_by_allowed_models, no_matching_workers}
use infermesh.Scheduler as Sched
use infermesh.Scheduler.Filters.{contains_complete}
use infermesh.Scheduler.Select.{ScoringAlgorithm, SelectedWorker, select_worker}
use infermesh.Candidates.{
  WorkerQueueStats, find, admitted, build_candidates, to_scheduler_worker, request_for, map_back,
  first_of, willing_first, scored, choose_candidate, or_else, or_fail, select_worker_excluding,
  advertises,
}

module _ {F : Type 0} where
  find-Memᴰ :
      (id : String) (ws : List (P.WorkerInfo F)) (w : P.WorkerInfo F)
      → find id ws ≡ some w
      → Memᴰ w ws
  unfolding find
  find-Memᴰ id [] w h = absurd (none-ne-some w h)
  find-Memᴰ id (x ∷ ws) w h = elim (Bool-cases (str_eq x.id id)) [
    | inl e ↦ Memᴰ.head (sym (some_inj.0 (rw (e, find) at h)))
    | inr e ↦ Memᴰ.tail (find-Memᴰ id ws w (rw (e, find) at h))
  ]

  cons-Memᴰ :
      (x : P.WorkerInfo F) (rest ws : List (P.WorkerInfo F)) (w : P.WorkerInfo F)
      → Memᴰ x ws
      → (Memᴰ w rest → Memᴰ w ws)
      → Memᴰ w (x ∷ rest)
      → Memᴰ w ws
  cons-Memᴰ x rest ws w here there (Memᴰ.head p) = subst (λ y. Memᴰ y ws) (sym p) here
  cons-Memᴰ x rest ws w here there (Memᴰ.tail t) = there t

  admitted-excluded :
      (excluded : List String) (ws : List (P.WorkerInfo F)) (w : P.WorkerInfo F)
      → Memᴰ w (admitted excluded ws)
      → ¬ Memᴰ w.id excluded
  admitted-excluded excluded ws w h m = ground (
    arith,
    (filter_by_sound (λ x. not (contains x.id excluded)) ws h).1,
    contains_complete w.id excluded m,
  )

module _ (fl : Float64) (addr : String → ℤ → String) where
  open fl use {Val}

  map_back-Memᴰ :
      (ss : List (Sched.WorkerInfo Val)) (ws : List (P.WorkerInfo Val)) (w : P.WorkerInfo Val)
      → Memᴰ w (map_back fl addr ss ws)
      → Memᴰ w ws
  unfolding map_back
  map_back-Memᴰ [] ws w h = elim h [ ]
  map_back-Memᴰ (s ∷ ss) ws w h = elim (Option-cases (find s.id ws)) [
    | inl e ↦ map_back-Memᴰ ss ws w (rw (e, map_back) at h)
    | inr (x, e) ↦
        cons-Memᴰ x (map_back fl addr ss ws) ws w (find-Memᴰ s.id ws x e) (map_back-Memᴰ ss ws w)
          (rw (e, map_back) at h)
  ]

  first_of-Memᴰ :
      (ss : List (Sched.WorkerInfo Val)) (ws : List (P.WorkerInfo Val)) (w : P.WorkerInfo Val)
      → first_of fl addr ss ws ≡ some w
      → Memᴰ w ws
  unfolding first_of
  first_of-Memᴰ [] ws w h = absurd (none-ne-some w h)
  first_of-Memᴰ (s ∷ ss) ws w h = find-Memᴰ s.id ws w h

  willing_first-Memᴰ :
      (order : List (Sched.WorkerInfo Val) → List (Sched.WorkerInfo Val)) (model : String)
      (throughput : P.WorkerInfo Val → Option Val) (ws : List (P.WorkerInfo Val))
      (w : P.WorkerInfo Val)
      → willing_first fl addr order model throughput ws ≡ some w
      → Memᴰ w ws
  unfolding willing_first
  willing_first-Memᴰ order model throughput ws w h =
      first_of-Memᴰ
        (order (
          filter_by_allowed_models (request_for fl addr model)
            (map (λ x. to_scheduler_worker fl addr none (throughput x) x) ws)))
        ws w h

  scored-Memᴰ :
      (r : Result (SelectedWorker Val)) (x : P.WorkerInfo Val) (ws : List (P.WorkerInfo Val))
      → Memᴰ x ws
      → Memᴰ (scored fl addr r x ws) ws
  unfolding scored
  scored-Memᴰ (err e) x ws h = h
  scored-Memᴰ (ok sel) x ws h = elim (Option-cases (find sel.worker.id ws)) [
    | inl e ↦ rw (scored, e) h
    | inr (y, e) ↦ rw (scored, e) (find-Memᴰ sel.worker.id ws y e)
  ]

  choose_candidate-Memᴰ :
      (score : List (Sched.WorkerInfo Val) → Result (SelectedWorker Val))
      (view : P.WorkerInfo Val → Sched.WorkerInfo Val) (ws : List (P.WorkerInfo Val))
      (w : P.WorkerInfo Val)
      → choose_candidate fl addr score view ws ≡ some w
      → Memᴰ w ws
  unfolding choose_candidate
  choose_candidate-Memᴰ score view [] w h = absurd (none-ne-some w h)
  choose_candidate-Memᴰ score view (x ∷ ws) w h =
      subst (λ y. Memᴰ y (x ∷ ws)) (some_inj.0 h)
        (scored-Memᴰ (score (map view (x ∷ ws))) x (x ∷ ws) (Memᴰ.head refl))

  abbrev back : Result (P.WorkerInfo Val) → Option (P.WorkerInfo Val)
  back (ok w) = some w
  back (err e) = none

  or_fail-some :
      (a : Option (P.WorkerInfo Val)) (w : P.WorkerInfo Val) → or_fail fl addr a ≡ ok w → a ≡ some w
  or_fail-some none w h = absurd (none-ne-some w (ap back h))
  or_fail-some (some x) w h = ap back h

  or_fail-or_else :
      (a b : Option (P.WorkerInfo Val)) (w : P.WorkerInfo Val) {P : Type 0}
      → (a ≡ some w → P)
      → (or_fail fl addr b ≡ ok w → P)
      → or_fail fl addr (or_else fl addr a b) ≡ ok w
      → P
  or_fail-or_else none b w f g h = g h
  or_fail-or_else (some x) b w f g h = f (ap back h)

  -- Where `sort` brings no worker into a list, the worker that is chosen for a request is none of the
  -- excluded ones, whatever the scorer, the load and the fallbacks.
  pub select_worker_excluding-excluded :
      (format : Val → String) (algo : ScoringAlgorithm Val) (now : ℕ) (include_unloaded : Bool)
      (load_model : P.WorkerInfo Val → Bool)
      (sort : List (P.WorkerInfo Val) → List (P.WorkerInfo Val))
      (sort_views : List (Sched.WorkerInfo Val) → List (Sched.WorkerInfo Val))
      (load : P.WorkerInfo Val → Option (WorkerQueueStats Val))
      (throughput : P.WorkerInfo Val → Option Val) (model : String)
      (cache : List (P.WorkerInfo Val)) (excluded : List String) (w : P.WorkerInfo Val)
      → ((x : P.WorkerInfo Val) (ws : List (P.WorkerInfo Val)) → Memᴰ x (sort ws) → Memᴰ x ws)
      → select_worker_excluding fl addr format algo now include_unloaded load_model sort sort_views
          load throughput model cache excluded
        ≡ ok w
      → ¬ Memᴰ w.id excluded
  unfolding select_worker_excluding
  select_worker_excluding-excluded format algo now include_unloaded load_model sort sort_views load
        throughput model cache excluded w s h =
      let built = build_candidates include_unloaded load_model sort model cache in
      let candidates = admitted excluded built in
      let views =
        filter_by_allowed_models (request_for fl addr model)
          (map (λ x. to_scheduler_worker fl addr none (throughput x) x) candidates) in
      let willing = map_back fl addr views candidates in
      let score : List (Sched.WorkerInfo Val) → Result (SelectedWorker Val) = λ vs.
        select_worker fl format algo now (request_for fl addr model) vs algo.get_unavailable_ttl in
      let view : P.WorkerInfo Val → Sched.WorkerInfo Val =
        λ x. to_scheduler_worker fl addr (load x) (throughput x) x in
      let chosen = choose_candidate fl addr score view (sort willing) in
      let rest = admitted excluded cache in
      let named : P.WorkerInfo Val → Bool = λ x. advertises model x.capabilities.models in
      let advertising = filter_by named rest in
      let first = willing_first fl addr (λ vs. vs) model throughput advertising in
      let last = willing_first fl addr sort_views model throughput rest in
      or_fail-or_else chosen (or_else fl addr first last) w
        (λ c. admitted-excluded excluded built w (
          map_back-Memᴰ views candidates w
            (s w willing (choose_candidate-Memᴰ score view (sort willing) w c))))
        (or_fail-or_else first last w
          (λ c.
            admitted-excluded excluded cache w
              (filter_by_sound named rest
                (willing_first-Memᴰ (λ vs. vs) model throughput advertising w c)).0)
          (λ c.
            admitted-excluded excluded cache w
              (willing_first-Memᴰ sort_views model throughput rest w (or_fail-some last w c))))
        h
