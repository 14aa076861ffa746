-- ===== src/Server/Popular.antt =====
-- `handlePopularModels` of pkg/router/handlers_meta.go: how many workers offer each model, and how often
-- it was called, over the capability cache and the snapshot of the call counter. A loop over a map
-- follows its list; sort.SliceStable is a parameter.
pub mod Exact
use infermesh.Prelude.{
  ℕ, ◌+◌, String, Bool, true, false, Option, none, some, List, [], ◌∷◌, if◌then◌else◌, Map, lookup,
  insert,
}
use infermesh.Protocol.{ModelInfo, WorkerInfo}

pub record ModelStats : Type 0 where
  pub worker_count : ℕ
  pub loaded_count : ℕ
  pub call_count : ℕ

pub record PopularModelInfo : Type 0 where
  pub model : String
  pub worker_count : ℕ
  pub loaded_worker_count : ℕ
  pub call_count : ℕ

-- `counts[name]` reads 0 for a missing key.
abbrev pub or_zero : Option ℕ → ℕ
or_zero none = 0
or_zero (some n) = n

-- The entry of a model, made where it is missing.
abbrev pub entry_or : ℕ → Option ModelStats → ModelStats
entry_or calls none = record { worker_count = 0; loaded_count = 0; call_count = calls }
entry_or calls (some stats) = stats

unfoldable pub count_model : Map ℕ → ModelInfo → Map ModelStats → Map ModelStats
count_model counts m stats =
    let old = entry_or (or_zero (lookup m.name counts)) (lookup m.name stats) in
    insert m.name
      (record old {
        worker_count = old.worker_count + 1;
        loaded_count = if m.loaded then old.loaded_count + 1 else old.loaded_count;
      })
      stats

unfoldable pub count_models : Map ℕ → List ModelInfo → Map ModelStats → Map ModelStats
unfolding count_model
count_models counts [] stats = stats
count_models counts (m ∷ ms) stats = count_models counts ms (count_model counts m stats)

abbrev pub popular_info : Map ModelStats → List PopularModelInfo
popular_info [] = []
popular_info ((model, stats) ∷ rest) =
    record {
      model = model;
      worker_count = stats.worker_count;
      loaded_worker_count = stats.loaded_count;
      call_count = stats.call_count;
    }
    ∷ popular_info rest

module _ {F : Type 0} where
  -- The loop over the cache.
  unfoldable pub count_workers : Map ℕ → Map (WorkerInfo F) → Map ModelStats → Map ModelStats
  unfolding count_models
  count_workers counts [] stats = stats
  count_workers counts ((id, w) ∷ cache) stats =
      count_workers counts cache (count_models counts w.capabilities.models stats)

  unfoldable pub popular_models :
      (List PopularModelInfo → List PopularModelInfo)
      → Map ℕ
      → Map (WorkerInfo F)
      → List PopularModelInfo
  unfolding count_workers
  popular_models sort counts cache = sort (popular_info (count_workers counts cache []))
