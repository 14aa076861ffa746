-- ===== src/Scheduler/Score/Eligible.antt =====
-- Which workers `WeightedScorer.Score` of pkg/scheduler/scheduler.go scores, and within which bounds.
use infermesh.Prelude.{
  ℕ, ◌≡◌, refl, ◌⊎◌, inl, inr, true, false, ◌&&◌, Option, none, some, arith, Bool-cases, pos,
  int_ltb,
}
use infermesh.Protocol.{ModelInfo}
use infermesh.Floats.{Float64, Units}
use infermesh.Scheduler.{ModelRequest, WorkerInfo, ok, since}
use infermesh.Scheduler.Quantization.{is_quantization_compatible}
use infermesh.Scheduler.Score.{
  WeightedScorer, find_model, zero_f, one_f, clamp_low, clamp_high, clamp_unit, weighted_sum,
  score_model, score_found, score,
}

module _ (fl : Float64) where
  open fl use {Val, ltb, eqb}

  -- A worker that may be scored, with the model that counts.
  pub record IsEligible (s : WeightedScorer Val) (now : ℕ) (request : ModelRequest)
      (w : WorkerInfo Val) (m : ModelInfo) : Type 0 where
    pub fresh : int_ltb s.unavailable_ttl (since now w.last_heartbeat) ≡ false
    pub found : find_model request.model w.models ≡ some m
    pub loadable :
        (m.loaded ≡ true)
        ⊎ (eqb s.loaded_model_bonus_weight (zero_f fl) ≡ false)
        ⊎ (eqb s.cold_load_penalty_weight (zero_f fl) ≡ false)
    pub compatible : is_quantization_compatible request.quantization m.quantization ≡ true
    pub roomy :
        ((int_ltb (pos 0) request.max_vram_mb && int_ltb w.vram_free_mb request.max_vram_mb)
          ≡ false)
        × ((int_ltb (pos 0) request.min_vram_mb && int_ltb w.vram_free_mb request.min_vram_mb)
            ≡ false)

  clamp_unit_bounds :
      Units fl
      → (x : Val)
      → (ltb (clamp_unit fl x) (zero_f fl) ≡ false) × (ltb (one_f fl) (clamp_unit fl x) ≡ false)
  unfolding clamp_low clamp_high
  clamp_unit_bounds u x = ground (arith, u.zero_zero, u.one_zero, u.one_one)

  score_model-IsEligible :
      Units fl
      → (s : WeightedScorer Val) (now : ℕ) (request : ModelRequest) (w : WorkerInfo Val)
        (m : ModelInfo) (x : Val)
      → int_ltb s.unavailable_ttl (since now w.last_heartbeat) ≡ false
      → find_model request.model w.models ≡ some m
      → score_model fl s request w m ≡ ok x
      → (ltb x (zero_f fl) ≡ false) × (ltb (one_f fl) x ≡ false) × IsEligible s now request w m
  unfolding score_model
  score_model-IsEligible u s now request w m x f p h =
      ground (arith, clamp_unit_bounds u (weighted_sum fl s request w m))

  score_found-IsEligible :
      Units fl
      → (s : WeightedScorer Val) (now : ℕ) (request : ModelRequest) (w : WorkerInfo Val)
        (o : Option ModelInfo) (x : Val)
      → int_ltb s.unavailable_ttl (since now w.last_heartbeat) ≡ false
      → find_model request.model w.models ≡ o
      → score_found fl s request w o ≡ ok x
      → (ltb x (zero_f fl) ≡ false)
        × (ltb (one_f fl) x ≡ false)
        × ((m : ModelInfo) × IsEligible s now request w m)
  unfolding score_found
  score_found-IsEligible u s now request w none x f p h = cc
  score_found-IsEligible u s now request w (some m) x f p h =
      let (a, b, c) = score_model-IsEligible u s now request w m x f p h in (a, b, (m, c))

  -- A score that is returned lies between 0 and 1 (it is neither below 0.0 nor above 1.0), and the
  -- worker it is returned for is eligible: its heartbeat is recent, it has the model, loaded unless
  -- a loading weight is set, in a compatible quantization, and the VRAM asked for.
  score-IsEligible :
      Units fl
      → (s : WeightedScorer Val) (now : ℕ) (request : ModelRequest) (w : WorkerInfo Val) (x : Val)
      → score fl s now request w ≡ ok x
      → (ltb x (zero_f fl) ≡ false)
        × (ltb (one_f fl) x ≡ false)
        × ((m : ModelInfo) × IsEligible s now request w m)
  unfolding score
  score-IsEligible u s now request w x h =
      elim (Bool-cases (int_ltb s.unavailable_ttl (since now w.last_heartbeat))) [
        | inl late ↦ ground (arith, late)
        | inr f ↦
            score_found-IsEligible u s now request w (find_model request.model w.models) x f refl
              (rw f at h)
      ]

  -- Every eligible worker gets a score.
  score_total :
      (s : WeightedScorer Val) (now : ℕ) (request : ModelRequest) (w : WorkerInfo Val)
      (m : ModelInfo)
      → IsEligible s now request w m
      → (x : Val) × (score fl s now request w ≡ ok x)
  unfolding score
  score_total s now request w m e =
      (clamp_unit fl (weighted_sum fl s request w m), ground (arith, e.found))
