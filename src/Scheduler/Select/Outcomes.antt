-- ===== src/Scheduler/Select/Outcomes.antt =====
-- When `SelectWorker` of pkg/scheduler/scheduler.go succeeds, and what its errors mean.
use infermesh.Prelude.{
  ℕ, ◌≡◌, ◌≢◌, refl, subst, ◌⊎◌, inl, inr, String, true, Option, none, some, List, [], ◌∷◌, Memᴰ,
  not-Memᴰ-nil, All-Memᴰ, Bool-cases, Option-cases, ℤ, All, filter_by, filter_by_complete,
}
use infermesh.Floats.{Float64}
use infermesh.Scheduler.{
  ModelRequest, WorkerInfo, Error, no_matching_workers, all_workers_unavailable, Result, ok, err,
  effective_ttl, is_fresh, is_willing, filter_unavailable, filter_by_allowed_models,
}
use infermesh.Scheduler.Select.{
  ScoringAlgorithm, SelectedWorker, consider, score_loop, report, choose, choose_willing,
  select_worker,
}
use infermesh.Scheduler.Select.Best.{candidates}

module _ (fl : Float64) where
  open fl use {Val, ltb}

  abbrev pub Unscored : (WorkerInfo Val → Result Val) → WorkerInfo Val → Type 0
  Unscored score x = (e : Error) × (score x ≡ err e)

  -- A best candidate, where there is one, is of the list and has the score.
  abbrev From :
      (WorkerInfo Val → Result Val) → List (WorkerInfo Val) → Option (WorkerInfo Val × Val) → Type 0
  From score xs none = Unit
  From score xs (some (w, s)) = Memᴰ w xs × (score w ≡ ok s)

  consider-From :
      (score : WorkerInfo Val → Result Val) (xs : List (WorkerInfo Val)) (x : WorkerInfo Val)
      (r : Result Val) (best : Option (WorkerInfo Val × Val))
      → score x ≡ r
      → Memᴰ x xs
      → From score xs best
      → From score xs (consider fl r x best)
  unfolding consider
  consider-From score xs x (err e) none p m h = tt
  consider-From score xs x (err e) (some b) p m h = h
  consider-From score xs x (ok s) none p m h = (m, p)
  consider-From score xs x (ok s) (some (w, t)) p m h = elim (Bool-cases (ltb t s)) [
    | inl lt ↦ rw lt (m, p)
    | inr ge ↦ rw ge h
  ]

  score_loop-From :
      (score : WorkerInfo Val → Result Val) (xs ws : List (WorkerInfo Val))
      (best : Option (WorkerInfo Val × Val))
      → ((x : WorkerInfo Val) → Memᴰ x ws → Memᴰ x xs)
      → From score xs best
      → From score xs (score_loop fl score ws best)
  unfolding score_loop
  score_loop-From score xs [] best k h = h
  score_loop-From score xs (w ∷ ws) best k h =
      score_loop-From score xs ws (consider fl (score w) w best) (λ x m. k x (Memᴰ.tail m))
        (consider-From score xs w (score w) best refl (k w (Memᴰ.head refl)) h)

  -- `sel` is a worker of the list, with its score.
  abbrev pub Picked :
      (WorkerInfo Val → Result Val) → List (WorkerInfo Val) → SelectedWorker Val → Type 0
  Picked score xs sel = Memᴰ sel.worker xs × (score sel.worker ≡ ok sel.score)

  -- With a candidate that scores, the loop ends with a best one.
  consider-some :
      (r : Result Val) (x : WorkerInfo Val) (b : WorkerInfo Val × Val)
      → (c : WorkerInfo Val × Val) × (consider fl r x (some b) ≡ some c)
  unfolding consider
  consider-some (err e) x b = (b, refl)
  consider-some (ok s) x (w, t) = elim (Bool-cases (ltb t s)) [
    | inl lt ↦ ((x, s), rw lt refl)
    | inr ge ↦ ((w, t), rw ge refl)
  ]

  score_loop-some :
      (score : WorkerInfo Val → Result Val) (ws : List (WorkerInfo Val)) (b : WorkerInfo Val × Val)
      → (c : WorkerInfo Val × Val) × (score_loop fl score ws (some b) ≡ some c)
  unfolding score_loop
  score_loop-some score [] b = (b, refl)
  score_loop-some score (w ∷ ws) b =
      let (c, e) = consider-some (score w) w b in rw e (score_loop-some score ws c)

  abbrev Scored :
      (WorkerInfo Val → Result Val) → List (WorkerInfo Val) → Option (WorkerInfo Val × Val) → Type 0
  Scored score ws none = All (Unscored score) ws
  Scored score ws (some c) = Unit

  score_loop-none_step :
      (score : WorkerInfo Val → Result Val) (w : WorkerInfo Val) (ws : List (WorkerInfo Val))
      (r : Result Val)
      → score w ≡ r
      → Scored score ws (score_loop fl score ws none)
      → Scored score (w ∷ ws) (score_loop fl score ws (consider fl r w none))
  unfolding consider
  score_loop-none_step score w ws (ok s) p h = rw (score_loop-some score ws (w, s)).1 tt
  score_loop-none_step score w ws (err e) p h = elim (Option-cases (score_loop fl score ws none)) [
    | inl q ↦ rw q ((e, p), rw q at h)
    | inr (c, q) ↦ rw q tt
  ]

  score_loop-none :
      (score : WorkerInfo Val → Result Val) (ws : List (WorkerInfo Val))
      → Scored score ws (score_loop fl score ws none)
  unfolding score_loop
  score_loop-none score [] = tt
  score_loop-none score (w ∷ ws) =
      score_loop-none_step score w ws (score w) refl (score_loop-none score ws)

  -- The four ways in which `select_worker` ends.
  abbrev pub Outcome :
      (WorkerInfo Val → Result Val)
      → ℕ
      → ModelRequest
      → List (WorkerInfo Val)
      → ℤ
      → Result (SelectedWorker Val)
      → Type 0
  Outcome score now request workers ttl r =
      ((workers ≡ []) × (r ≡ err no_matching_workers))
      ⊎ ((workers ≢ [])
          × (filter_unavailable now workers ttl ≡ [])
          × (r ≡ err all_workers_unavailable))
      ⊎ ((filter_unavailable now workers ttl ≢ [])
          × All (Unscored score) (candidates fl now request workers ttl)
          × (r ≡ err no_matching_workers))
      ⊎ ((sel : SelectedWorker Val) × Picked score (candidates fl now request workers ttl) sel
          × (r ≡ ok sel))

  choose_cases :
      (format : Val → String) (score : WorkerInfo Val → Result Val) (xs : List (WorkerInfo Val))
      → (All (Unscored score) xs × (choose fl format score xs ≡ err no_matching_workers))
        ⊎ ((sel : SelectedWorker Val) × Picked score xs sel × (choose fl format score xs ≡ ok sel))
  unfolding choose
  choose_cases format score [] = inl (tt, refl)
  choose_cases format score (x ∷ xs) = elim (Option-cases (score_loop fl score (x ∷ xs) none)) [
    | inl q ↦ inl (rw q at (score_loop-none score (x ∷ xs)), rw (q, report))
    | inr (c, q) ↦ inr (
      record { worker = c.0; score = c.1; reason = format c.1 },
      rw q at (score_loop-From score (x ∷ xs) (x ∷ xs) none (λ y m. m) tt),
      rw (q, report) refl,
    )
  ]

  -- The third and fourth way, from the fresh workers `xs`.
  choose_willing_cases :
      (format : Val → String) (score : WorkerInfo Val → Result Val) (request : ModelRequest)
      (xs : List (WorkerInfo Val))
      → ((xs ≡ []) × (choose_willing fl format score request xs ≡ err all_workers_unavailable))
        ⊎ ((xs ≢ [])
            × All (Unscored score) (filter_by (is_willing request) xs)
            × (choose_willing fl format score request xs ≡ err no_matching_workers))
        ⊎ ((sel : SelectedWorker Val) × Picked score (filter_by (is_willing request) xs) sel
            × (choose_willing fl format score request xs ≡ ok sel))
  unfolding choose_willing filter_by_allowed_models
  choose_willing_cases format score request [] = inl (refl, refl)
  choose_willing_cases format score request (x ∷ xs) =
      elim (choose_cases format score (filter_by (is_willing request) (x ∷ xs))) [
        | inl (u, e) ↦ inr (inl ((λ q. cc), u, e))
        | inr s ↦ inr (inr s)
      ]

  -- Selection ends in one of four ways, each with its reason: with no match on an empty list; as
  -- unavailable where there are workers and none is fresh; with no match where some are fresh and
  -- none of those willing scores; and otherwise with a worker, which is one of those fresh and
  -- willing, and with the score that it has.
  pub select_worker_outcomes :
      (format : Val → String) (algo : ScoringAlgorithm Val) (now : ℕ) (request : ModelRequest)
      (workers : List (WorkerInfo Val)) (ttl : ℤ)
      → Outcome
          (algo.score now request)
          now
          request
          workers
          ttl
          (select_worker fl format algo now request workers ttl)
  unfolding select_worker filter_unavailable
  select_worker_outcomes format algo now request [] ttl = inl (refl, refl)
  select_worker_outcomes format algo now request (w ∷ ws) ttl =
      elim (choose_willing_cases format (algo.score now request) request
        (filter_by (is_fresh now (effective_ttl ttl)) (w ∷ ws))) [
          | inl (n, e) ↦ inr (inl ((λ q. cc), n, e))
          | inr (inl (n, u, e)) ↦ inr (inr (inl (n, u, e)))
          | inr (inr s) ↦ inr (inr (inr s))
        ]

  -- Whenever some worker is fresh, willing and can be scored, a worker is selected.
  select_worker_total :
      (format : Val → String) (algo : ScoringAlgorithm Val) (now : ℕ) (request : ModelRequest)
      (workers : List (WorkerInfo Val)) (ttl : ℤ) (x : WorkerInfo Val) (s : Val)
      → Memᴰ x workers
      → is_fresh now (effective_ttl ttl) x ≡ true
      → is_willing request x ≡ true
      → algo.score now request x ≡ ok s
      → (sel : SelectedWorker Val) × (select_worker fl format algo now request workers ttl ≡ ok sel)
  unfolding filter_unavailable
  select_worker_total format algo now request workers ttl x s m f a e =
      elim (select_worker_outcomes format algo now request workers ttl) [
        | inl (n, _) ↦ absurd (not-Memᴰ-nil (subst (Memᴰ x) n m))
        | inr (inl (_, n, _)) ↦ absurd (not-Memᴰ-nil (subst (Memᴰ x) n fresh))
        | inr (inr (inl (_, u, _))) ↦
            let (c, q) =
              All-Memᴰ (Unscored (algo.score now request)) _ x u
                (filter_by_complete (is_willing request) _ fresh a) in
            cc
        | inr (inr (inr (sel, _, q))) ↦ (sel, q)
      ]
    where
      fresh : Memᴰ x (filter_by (is_fresh now (effective_ttl ttl)) workers)
      fresh = filter_by_complete (is_fresh now (effective_ttl ttl)) workers m f
