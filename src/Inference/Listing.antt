-- ===== src/Inference/Listing.antt =====
-- `Snapshots` of pkg/worker/inference_stats.go against `Snapshot`.
use mathlib.Core.Option.{none-ne-some, some_inj}
use infermesh.Prelude.{
  ℕ, ◌≡◌, refl, ap, sym, ◌∙◌, subst, ◌↔◌, String, Bool, true, false, none, some, List, [], ◌∷◌,
  arith, str_eq, str_eq_refl, str_eq_sound, if◌then◌else◌, Bool-cases, inl, inr, Memᴰ, Map, insert,
  lookup, lookup-insert, ℤ,
}
use infermesh.Floats.{Float64}
use infermesh.Protocol.{InferenceStatsSnapshot}
use infermesh.Inference.{
  InferenceSample, InferenceTracker, prune_locked, has_sample, collect_models, aggregate,
  aggregate_each, snapshot, snapshots,
}

-- A model is a key of the map.
abbrev has_key : String → Map {0} Unit → Bool
has_key model m = elim (lookup model m) [ none ↦ false | some u ↦ true ]

has_key-insert :
    (key model : String) (m : Map {0} Unit)
    → has_key model (insert key tt m) ≡ (if str_eq key model then true else has_key model m)
has_key-insert key model m = rw (lookup-insert key model tt m, has_key) (ground arith)

has_key-collect_models :
    (model : String) (m : Map {0} Unit) (xs : List InferenceSample)
    → has_key model (collect_models m xs) ≡ (if has_sample model xs then true else has_key model m)
unfolding collect_models has_sample
has_key-collect_models model m [] = refl
has_key-collect_models model m (s ∷ ss) =
    has_key-collect_models model (insert s.model tt m) ss
    ∙ rw (has_key-insert s.model model m) (ground arith)

has_key-cons :
    (key model : String) (u : Unit) (m : Map {0} Unit)
    → has_key model m ≡ true
    → has_key model ((key, u) ∷ m) ≡ true
unfolding lookup
has_key-cons key model u m h = ground (arith, h)

has_sample_of_key :
    (model : String) (xs : List InferenceSample)
    → has_key model (collect_models [] xs) ≡ true
    → has_sample model xs ≡ true
unfolding lookup
has_sample_of_key model xs h = elim (Bool-cases (has_sample model xs)) [
  | inl e ↦ e
  | inr e ↦ absurd (ground (arith, h, e, has_key-collect_models model [] xs))
]

module _ (fl : Float64) (seconds : ℤ → Float64.Val fl) where
  open fl use {Val}

  Memᴰ-aggregate_each :
      (xs : List InferenceSample) (m : Map {0} Unit) (model : String)
      → has_key model m ≡ true
      → Memᴰ (aggregate fl seconds xs model) (aggregate_each fl seconds xs m)
  unfolding aggregate_each lookup
  Memᴰ-aggregate_each xs [] model h = absurd (ground (arith, h))
  Memᴰ-aggregate_each xs ((key, u) ∷ m) model h = elim (Bool-cases (str_eq key model)) [
    | inl same ↦ Memᴰ.head (ap (aggregate fl seconds xs) (sym (str_eq_sound key model same)))
    | inr other ↦ Memᴰ.tail (Memᴰ-aggregate_each xs m model (rw (other, lookup, has_key) at h))
  ]

  has_key-aggregate_each :
      (xs : List InferenceSample) (m : Map {0} Unit) (found : InferenceStatsSnapshot Val)
      → Memᴰ found (aggregate_each fl seconds xs m)
      → (model : String) × (has_key model m ≡ true) × (found ≡ aggregate fl seconds xs model)
  unfolding aggregate_each lookup
  has_key-aggregate_each xs [] found h = elim h [ ]
  has_key-aggregate_each xs ((key, u) ∷ m) found (Memᴰ.head q) =
      (key, rw (str_eq_refl key, lookup, has_key) refl, q)
  has_key-aggregate_each xs ((key, u) ∷ m) found (Memᴰ.tail h) =
      let (model, k, q) = has_key-aggregate_each xs m found h in
      (model, has_key-cons key model u m k, q)

  found_by_snapshot :
      (xs : List InferenceSample) (model : String) (found : InferenceStatsSnapshot Val)
      → (if has_sample model xs then some (aggregate fl seconds xs model) else none) ≡ some found
      → (has_sample model xs ≡ true) × (aggregate fl seconds xs model ≡ found)
  found_by_snapshot xs model found h = elim (Bool-cases (has_sample model xs)) [
    | inl e ↦ (e, some_inj.0 (rw e at h))
    | inr e ↦ absurd (none-ne-some found (rw e at h))
  ]

  -- The two endpoints agree: `Snapshots` lists exactly the snapshots that `Snapshot` returns for some
  -- model at the same time, for a sort that keeps the elements of a list.
  pub snapshots-snapshot :
      (sort : List (InferenceStatsSnapshot Val) → List (InferenceStatsSnapshot Val))
      (sort-same : (xs : List (InferenceStatsSnapshot Val)) (x : InferenceStatsSnapshot Val)
        → Memᴰ x (sort xs) ↔ Memᴰ x xs)
      (now : ℕ) (t : InferenceTracker) (found : InferenceStatsSnapshot Val)
      → Memᴰ found (snapshots fl seconds sort now t).1
        ↔ ((model : String) × ((snapshot fl seconds model now t).1 ≡ some found))
  unfolding snapshots snapshot
  snapshots-snapshot sort sort-same now t found =
      let xs = (prune_locked now t).samples in
      (
        λ listed.
            let (model, k, q) =
              has_key-aggregate_each xs (collect_models [] xs) found
                ((sort-same _ found).0 listed) in
            (model, rw (has_sample_of_key model xs k) (ap some (sym q))),
        λ (model, h).
            let (k, q) = found_by_snapshot xs model found h in
            (sort-same _ found).1 (
              subst (λ x. Memᴰ x (aggregate_each fl seconds xs (collect_models [] xs))) q
                (Memᴰ-aggregate_each xs (collect_models [] xs) model
                  (has_key-collect_models model [] xs ∙ rw k refl))),
      )
