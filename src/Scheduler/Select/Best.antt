-- ===== src/Scheduler/Select/Best.antt =====
-- What `SelectWorker` of pkg/scheduler/scheduler.go promises: the first of the best candidates.
use mathlib.Core.List.{append_assoc, append-nil}
use infermesh.Prelude.{
  ℕ, ◌≡◌, refl, ap, subst, ◌∙◌, inl, inr, String, true, false, Option, none, some, List, [], ◌∷◌,
  ◌++◌, Bool-cases, ℤ, All, All-append, All-map, filter_by,
}
use infermesh.Floats.{Float64, Ordered}
use infermesh.Scheduler.{
  ModelRequest, WorkerInfo, Error, Result, ok, err, effective_ttl, is_fresh, is_willing,
  filter_unavailable, filter_by_allowed_models,
}
use infermesh.Scheduler.Select.{
  ScoringAlgorithm, SelectedWorker, consider, score_loop, report, choose, choose_willing,
  select_worker,
}

module _ (fl : Float64) where
  open fl use {Val, ltb}

  abbrev Unscored : (WorkerInfo Val → Result Val) → WorkerInfo Val → Type 0
  Unscored score x = (e : Error) × (score x ≡ err e)

  -- `x` scores less than `s`, if it scores at all.
  abbrev pub Below : (WorkerInfo Val → Result Val) → Val → WorkerInfo Val → Type 0
  Below score s x = (t : Val) → score x ≡ ok t → ltb t s ≡ true

  -- `x` does not score more than `s`.
  abbrev pub NotAbove : (WorkerInfo Val → Result Val) → Val → WorkerInfo Val → Type 0
  NotAbove score s x = (t : Val) → score x ≡ ok t → ltb s t ≡ false

  -- `w` with score `s` is the first of the best of `xs`.
  pub record FirstBest (score : WorkerInfo Val → Result Val) (xs : List (WorkerInfo Val))
      (w : WorkerInfo Val) (s : Val) : Type 0 where
    pub before : List (WorkerInfo Val)
    pub after : List (WorkerInfo Val)
    pub split : xs ≡ before ++ w ∷ after
    pub scored : score w ≡ ok s
    pub below : All (Below score s) before
    pub not_above : All (NotAbove score s) after

  abbrev Inv :
      (WorkerInfo Val → Result Val) → List (WorkerInfo Val) → Option (WorkerInfo Val × Val) → Type 0
  Inv score seen none = All (Unscored score) seen
  Inv score seen (some (w, s)) = FirstBest score seen w s

  module _ {Num : Val → Type 0} (o : Ordered fl Num) (score : WorkerInfo Val → Result Val)
      (nums : (x : WorkerInfo Val) (t : Val) → score x ≡ ok t → Num t) where
    lt_of_le_lt :
        (u t s : Val) → Num u → Num t → Num s → ltb t u ≡ false → ltb t s ≡ true → ltb u s ≡ true
    lt_of_le_lt u t s nu nt ns le lt = elim (Bool-cases (ltb u s)) [
      | inl e ↦ e
      | inr e ↦ cc (o.trans s u t ns nu nt e le)
    ]

    Below-of_Unscored : (s : Val) (x : WorkerInfo Val) → Unscored score x → Below score s x
    Below-of_Unscored s x (e, p) t q = cc

    same_score : (x : WorkerInfo Val) (s t : Val) → score x ≡ ok s → score x ≡ ok t → s ≡ t
    same_score x s t p q = cc

    -- The candidate `x` with score `s` replaces the best so far, `w` with score `t`.
    replace :
        (seen : List (WorkerInfo Val)) (x w : WorkerInfo Val) (s t : Val)
        → score x ≡ ok s
        → ltb t s ≡ true
        → FirstBest score seen w t
        → FirstBest score (seen ++ x ∷ []) x s
    replace seen x w s t e lt b = record {
      before = seen;
      after = [];
      split = refl;
      scored = e;
      below = rw b.split (
          All-append (Below score s) b.before (w ∷ b.after)
            (All-map
              (λ y h u p.
                lt_of_le_lt u t s (nums y u p) (nums w t b.scored) (nums x s e)
                  (o.asym u t (nums y u p) (nums w t b.scored) (h u p)) lt)
              b.before b.below)
            (
              (λ u p. rw (← same_score w t u b.scored p) lt),
              All-map
                  (λ y h u p.
                    lt_of_le_lt u t s (nums y u p) (nums w t b.scored) (nums x s e) (h u p) lt)
                  b.after b.not_above,
            ));
      not_above = tt;
    }

    keep :
        (seen : List (WorkerInfo Val)) (x w : WorkerInfo Val) (t : Val)
        → NotAbove score t x
        → FirstBest score seen w t
        → FirstBest score (seen ++ x ∷ []) w t
    keep seen x w t h b = record {
      before = b.before;
      after = b.after ++ x ∷ [];
      split = ap (λ l. l ++ x ∷ []) b.split ∙ append_assoc b.before (w ∷ b.after) (x ∷ []);
      scored = b.scored;
      below = b.below;
      not_above = All-append (NotAbove score t) b.after (x ∷ []) b.not_above (h, tt);
    }

    consider-Inv :
        (seen : List (WorkerInfo Val)) (x : WorkerInfo Val) (best : Option (WorkerInfo Val × Val))
        (r : Result Val)
        → score x ≡ r
        → Inv score seen best
        → Inv score (seen ++ x ∷ []) (consider fl r x best)
    unfolding consider
    consider-Inv seen x none (err e) p v = All-append (Unscored score) seen (x ∷ []) v ((e, p), tt)
    consider-Inv seen x (some (w, t)) (err e) p v = keep seen x w t (λ u q. cc) v
    consider-Inv seen x none (ok s) p v = record {
      before = seen;
      after = [];
      split = refl;
      scored = p;
      below = All-map (Below-of_Unscored s) seen v;
      not_above = tt;
    }
    consider-Inv seen x (some (w, t)) (ok s) p v = elim (Bool-cases (ltb t s)) [
      | inl lt ↦ rw lt (replace seen x w s t p lt v)
      | inr ge ↦ rw ge (keep seen x w t (λ u q. rw (← same_score x s u p q) ge) v)
    ]

    score_loop-Inv :
        (seen ws : List (WorkerInfo Val)) (best : Option (WorkerInfo Val × Val))
        → Inv score seen best
        → Inv score (seen ++ ws) (score_loop fl score ws best)
    unfolding score_loop
    score_loop-Inv seen [] best v = rw append-nil v
    score_loop-Inv seen (w ∷ ws) best v =
        subst (λ l. Inv score l (score_loop fl score ws (consider fl (score w) w best)))
          (append_assoc seen (w ∷ []) ws)
          (score_loop-Inv (seen ++ w ∷ []) ws (consider fl (score w) w best)
            (consider-Inv seen w best (score w) refl v))

  -- The candidates that `select_worker` scores: those fresh and willing, in the order given.
  abbrev pub candidates : ℕ → ModelRequest → List (WorkerInfo Val) → ℤ → List (WorkerInfo Val)
  candidates now request workers ttl =
      filter_by (is_willing request) (filter_by (is_fresh now (effective_ttl ttl)) workers)

  ok-injective : {a b : SelectedWorker Val} → ok a ≡ ok b → a ≡ b
  ok-injective h = cc

  report-FirstBest :
      (format : Val → String) (score : WorkerInfo Val → Result Val) (xs : List (WorkerInfo Val))
      (best : Option (WorkerInfo Val × Val)) (sel : SelectedWorker Val)
      → Inv score xs best
      → report fl format best ≡ ok sel
      → FirstBest score xs sel.worker sel.score
  unfolding report
  report-FirstBest format score xs none sel v h = cc
  report-FirstBest format score xs (some (w, s)) sel v h =
      subst (λ r. FirstBest score xs r.worker r.score) (ok-injective h) v

  module _ {Num : Val → Type 0} (o : Ordered fl Num) (format : Val → String)
      (score : WorkerInfo Val → Result Val)
      (nums : (x : WorkerInfo Val) (t : Val) → score x ≡ ok t → Num t)
      (sel : SelectedWorker Val) where
    choose-FirstBest :
        (xs : List (WorkerInfo Val))
        → choose fl format score xs ≡ ok sel
        → FirstBest score xs sel.worker sel.score
    unfolding choose
    choose-FirstBest [] h = cc
    choose-FirstBest (x ∷ xs) h =
        report-FirstBest format score (x ∷ xs) (score_loop fl score (x ∷ xs) none) sel
          (score_loop-Inv o score nums [] (x ∷ xs) none tt) h

    choose_willing-FirstBest :
        (request : ModelRequest) (xs : List (WorkerInfo Val))
        → choose_willing fl format score request xs ≡ ok sel
        → FirstBest score (filter_by (is_willing request) xs) sel.worker sel.score
    unfolding choose_willing filter_by_allowed_models
    choose_willing-FirstBest request [] h = cc
    choose_willing-FirstBest request (x ∷ xs) h =
        choose-FirstBest (filter_by (is_willing request) (x ∷ xs)) h

  -- If every score is a number, a worker that is selected is the first, in the order given, of the
  -- best-scoring ones among the workers that are fresh and willing: it scored what is reported,
  -- those before it scored strictly less, and those after it no more.
  pub select_worker-FirstBest :
      {Num : Val → Type 0}
      → Ordered fl Num
      → (format : Val → String) (algo : ScoringAlgorithm Val) (now : ℕ) (request : ModelRequest)
        (workers : List (WorkerInfo Val)) (ttl : ℤ) (sel : SelectedWorker Val)
      → ((x : WorkerInfo Val) (t : Val) → algo.score now request x ≡ ok t → Num t)
      → select_worker fl format algo now request workers ttl ≡ ok sel
      → FirstBest (algo.score now request) (candidates now request workers ttl) sel.worker sel.score
  unfolding select_worker filter_unavailable
  select_worker-FirstBest o format algo now request [] ttl sel nums h = cc
  select_worker-FirstBest o format algo now request (w ∷ ws) ttl sel nums h =
      choose_willing-FirstBest o format (algo.score now request) nums sel request
        (filter_by (is_fresh now (effective_ttl ttl)) (w ∷ ws)) h
