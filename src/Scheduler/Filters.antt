-- ===== src/Scheduler/Filters.antt =====
-- The filters of pkg/scheduler/scheduler.go against what their comments promise.
use text.Mathlib.TextEquality.{eq_iff}
use infermesh.Prelude.{
  ◌≡◌, ◌≢◌, ◌↔◌, refl, sym, ap, ◌∙◌, ◌⊎◌, inl, inr, String, true, ◌&&◌, List, [], ◌∷◌, Memᴰ,
  not-Memᴰ-nil, arith, str_eq, Bool-cases, filter_by_sound, filter_by_complete,
}
use infermesh.Protocol.{ModelInfo}
use infermesh.Scheduler.{
  ModelRequest, WorkerInfo, contains, has_loaded, is_willing, filter_by_model,
  filter_by_allowed_models,
}

contains_sound : (model : String) (ms : List String) → contains model ms ≡ true → Memᴰ model ms
contains_sound model [] h = cc
contains_sound model (m ∷ ms) h = elim (Bool-cases (str_eq m model)) [
  | inl e ↦ Memᴰ.head (sym ((eq_iff m model).0 e))
  | inr e ↦ Memᴰ.tail (contains_sound model ms (ground (arith, e)))
]

pub contains_complete :
    (model : String) (ms : List String) → Memᴰ model ms → contains model ms ≡ true
contains_complete model [] h = elim h [ ]
contains_complete model (m ∷ ms) (Memᴰ.head e) = ground (arith, (eq_iff m model).1 (sym e))
contains_complete model (m ∷ ms) (Memᴰ.tail h) = ground (arith, contains_complete model ms h)

has_loaded_sound :
    (model : String) (ms : List ModelInfo)
    → has_loaded model ms ≡ true
    → (m : ModelInfo) × Memᴰ m ms × (m.name ≡ model) × (m.loaded ≡ true)
has_loaded_sound model [] h = cc
has_loaded_sound model (m ∷ ms) h = elim (Bool-cases (str_eq m.name model && m.loaded)) [
  | inl e ↦ (m, Memᴰ.head refl, (eq_iff m.name model).0 (ground (arith, e)), ground (arith, e))
  | inr e ↦
      let (x, a, b, c) = has_loaded_sound model ms (ground (arith, e)) in (x, Memᴰ.tail a, b, c)
]

has_loaded_complete :
    (model : String) (ms : List ModelInfo) (m : ModelInfo)
    → Memᴰ m ms
    → m.name ≡ model
    → m.loaded ≡ true
    → has_loaded model ms ≡ true
has_loaded_complete model [] m h p q = elim h [ ]
has_loaded_complete model (x ∷ ms) m (Memᴰ.head e) p q =
    ground (arith, e, (eq_iff x.name model).1 (ap (λ y. y.name) (sym e) ∙ p))
has_loaded_complete model (x ∷ ms) m (Memᴰ.tail h) p q =
    ground (arith, has_loaded_complete model ms m h p q)

module _ {F : Type 0} where
  -- What the comments promise: a whitelist that is not empty decides alone, and else the blacklist.
  abbrev pub Willing : String → WorkerInfo F → Type 0
  Willing model w =
      ((w.allowed_models ≢ []) × Memᴰ model w.allowed_models)
      ⊎ ((w.allowed_models ≡ []) × (¬ Memᴰ model w.excluded_models))

  is_willing-Willing :
      (request : ModelRequest) (w : WorkerInfo F) (allowed excluded : List String)
      → w.allowed_models ≡ allowed
      → w.excluded_models ≡ excluded
      → is_willing request w ≡ true
      → Willing request.model w
  is_willing-Willing request w (a ∷ rest) excluded p q h =
      inl ((λ e. cc), rw p (contains_sound request.model (a ∷ rest) (rw p at h)))
  is_willing-Willing request w [] [] p q h = inr (p, λ m. not-Memᴰ-nil (rw q at m))
  is_willing-Willing request w [] (x ∷ xs) p q h =
      inr (p, λ m. ground (arith, contains_complete request.model w.excluded_models m))

  Willing-is_willing :
      (request : ModelRequest) (w : WorkerInfo F) (allowed excluded : List String)
      → w.allowed_models ≡ allowed
      → w.excluded_models ≡ excluded
      → Willing request.model w
      → is_willing request w ≡ true
  Willing-is_willing request w (a ∷ rest) excluded p q (inl (n, m)) =
      ground (arith, contains_complete request.model w.allowed_models m)
  Willing-is_willing request w [] excluded p q (inl (n, m)) = absurd (n p)
  Willing-is_willing request w (a ∷ rest) excluded p q (inr (n, m)) = cc
  Willing-is_willing request w [] [] p q (inr (n, m)) = ground arith
  Willing-is_willing request w [] (x ∷ xs) p q (inr (n, m)) =
      elim (Bool-cases (contains request.model w.excluded_models)) [
        | inl e ↦ absurd (m (contains_sound request.model w.excluded_models e))
        | inr e ↦ ground (arith, e)
      ]

  -- A worker passes the filter exactly when it was given and is willing: its whitelist names the
  -- model, or its whitelist is empty and its blacklist does not name the model.
  filter_by_allowed_models_iff :
      (request : ModelRequest) (workers : List (WorkerInfo F)) (w : WorkerInfo F)
      → Memᴰ w (filter_by_allowed_models request workers)
        ↔ (Memᴰ w workers × Willing request.model w)
  unfolding filter_by_allowed_models
  filter_by_allowed_models_iff request workers w = (
    (λ m.
        let (a, b) = filter_by_sound (is_willing request) workers m in
        (a, is_willing-Willing request w w.allowed_models w.excluded_models refl refl b)),
    (λ h.
        filter_by_complete (is_willing request) workers h.0
          (Willing-is_willing request w w.allowed_models w.excluded_models refl refl h.1)),
  )

  -- A worker passes the filter exactly when it was given and has some model of the name loaded.
  filter_by_model_iff :
      (workers : List (WorkerInfo F)) (model : String) (w : WorkerInfo F)
      → Memᴰ w (filter_by_model workers model) ↔ (
          Memᴰ w workers
          × ((m : ModelInfo) × Memᴰ m w.models × (m.name ≡ model) × (m.loaded ≡ true)))
  unfolding filter_by_model
  filter_by_model_iff workers model w = (
    (λ h.
        let (a, b) = filter_by_sound (λ v. has_loaded model v.models) workers h in
        (a, has_loaded_sound model w.models b)),
    (λ h.
        let (m, a, b, c) = h.1 in
        filter_by_complete (λ v. has_loaded model v.models) workers h.0
          (has_loaded_complete model w.models m a b c)),
  )
