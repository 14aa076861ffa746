-- ===== src/CapabilityCache/Stats.antt =====
-- The throughput snapshots of pkg/router/capability_cache.go.
use infermesh.Prelude.{
  ◌≡◌, refl, ◌∙◌, ap, String, Option, none, some, List, [], ◌∷◌, arith, str_eq, if◌then◌else◌,
  Bool-cases, inl, inr, Map, lookup, insert, lookup-insert, lookup-delete,
}
use infermesh.Protocol.{WorkerInfo, InferenceStatsSnapshot, Capabilities}
use infermesh.CapabilityCache.{
  WorkerInferenceStats, CapabilityCache, worker_inference_stats, by_model, set_inference_stats,
  get_inference_stats, update, store_capabilities, fetch_capabilities,
}

module _ {F : Type 0} where
  -- The last snapshot of a model in a list, where there is one.
  abbrev pub last_of : String → List (InferenceStatsSnapshot F) → Option (InferenceStatsSnapshot F)
  last_of model [] = none
  last_of model (s ∷ snaps) = elim (last_of model snaps) [
    | none ↦ if str_eq s.model model then some s else none
    | some t ↦ some t
  ]

  abbrev pub dto : String → Option (InferenceStatsSnapshot F) → Option (WorkerInferenceStats F)
  dto id none = none
  dto id (some s) = some (worker_inference_stats id s)

  abbrev or_else :
      Option (WorkerInferenceStats F)
      → Option (WorkerInferenceStats F)
      → Option (WorkerInferenceStats F)
  or_else none y = y
  or_else (some s) y = some s

  lookup-by_model :
      (id model : String) (snaps : List (InferenceStatsSnapshot F))
      (stats : Map (WorkerInferenceStats F))
      → lookup model (by_model id snaps stats)
        ≡ or_else (dto id (last_of model snaps)) (lookup model stats)
  unfolding by_model
  lookup-by_model id model [] stats = refl
  lookup-by_model id model (s ∷ snaps) stats =
      lookup-by_model id model snaps (insert s.model (worker_inference_stats id s) stats)
      ∙ ground (arith, lookup-insert s.model model (worker_inference_stats id s) stats)

  or_else-none : (x : Option (WorkerInferenceStats F)) → or_else x none ≡ x
  or_else-none none = refl
  or_else-none (some s) = refl

  abbrev pick : String → Option (Map (WorkerInferenceStats F)) → Option (WorkerInferenceStats F)
  pick model none = none
  pick model (some stats) = lookup model stats

  get_inference_stats-set :
      (id worker model : String) (snaps : List (InferenceStatsSnapshot F)) (c : CapabilityCache F)
      → get_inference_stats worker model (set_inference_stats id snaps c) ≡ (
          if str_eq id worker
          then dto id (last_of model snaps)
          else get_inference_stats worker model c)
  unfolding set_inference_stats get_inference_stats lookup
  get_inference_stats-set id worker model [] c =
      ground (arith, lookup-delete id worker c.inference_stats)
  get_inference_stats-set id worker model (s ∷ snaps) c =
      ap (pick model) (lookup-insert id worker (by_model id (s ∷ snaps) []) c.inference_stats)
      ∙ elim (Bool-cases (str_eq id worker)) [
        | inl same ↦ rw same (
            lookup-by_model id model (s ∷ snaps) []
            ∙ or_else-none (dto id (last_of model (s ∷ snaps))))
        | inr other ↦ rw other refl
      ]

  -- The capabilities that the cache takes from an update of a worker, as an answer.
  abbrev pub stats_after :
      Option (Capabilities F)
      → String
      → String
      → Option (WorkerInferenceStats F)
      → Option (WorkerInferenceStats F)
  stats_after none id model old = old
  stats_after (some caps) id model old = dto id (last_of model caps.inference_stats)

  store_capabilities-stats :
      (w : WorkerInfo F) (caps : Option (Capabilities F)) (worker model : String)
      (c : CapabilityCache F)
      → get_inference_stats worker model (store_capabilities w caps c) ≡ (
          if str_eq w.id worker
          then stats_after caps w.id model (get_inference_stats worker model c)
          else get_inference_stats worker model c)
  unfolding store_capabilities get_inference_stats
  store_capabilities-stats w none worker model c = ground arith
  store_capabilities-stats w (some caps) worker model c =
      get_inference_stats-set w.id worker model caps.inference_stats _

  -- After `Update`, the snapshot served for a worker and a model is the last that the worker's new
  -- capabilities name, or none where they name none, so that nothing stale is left; where the request
  -- for the capabilities failed it is as it was. Other workers' snapshots do not change.
  get_inference_stats-update :
      (answer : Option (Capabilities F)) (w : WorkerInfo F) (worker model : String)
      (c : CapabilityCache F)
      → get_inference_stats worker model (update answer w c) ≡ (
          if str_eq w.id worker
          then stats_after
              (fetch_capabilities answer w)
              w.id
              model
              (get_inference_stats worker model c)
          else get_inference_stats worker model c)
  unfolding update get_inference_stats
  get_inference_stats-update answer w worker model c =
      store_capabilities-stats w (fetch_capabilities answer w) worker model
        (record c { cache = insert w.id w c.cache })
