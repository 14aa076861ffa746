-- ===== src/Candidates.antt =====
-- pkg/router/dispatch.go: the choice of a worker for a request, with some workers excluded. The cache
-- is the list of its workers in the order in which a loop meets them. Parameters: `sort`, which is
-- sort.Slice by id; `load_model`, the answer of a worker that is asked to load the model; `addr`, the
-- formatting of an address. A cache and a scorer are configured.
pub mod Exclusion
pub mod Examples
use infermesh.Prelude.{
  ℕ, String, Bool, true, false, not, ◌&&◌, ◌||◌, Option, none, some, List, [], ◌∷◌, ◌++◌, map,
  str_eq, filter_by, if◌then◌else◌, ℤ, pos, negsuc, int_ltb, int_leb, Map, lookup,
}
use infermesh.Protocol.{ModelInfo}
use infermesh.Protocol as P
use infermesh.Floats.{Float64}
use infermesh.Scheduler.{
  ModelRequest, contains, has_loaded, filter_by_allowed_models, Result, ok, err,
  no_matching_workers,
}
use infermesh.Scheduler as Sched
use infermesh.Scheduler.Select.{ScoringAlgorithm, SelectedWorker, select_worker}

pub record WorkerQueueStats (F : Type 0) : Type 0 where
  pub worker_id : String
  pub queue_depth : ℤ
  pub in_flight : ℤ
  pub max_in_flight : ℤ
  pub avg_wait_ms : F
  pub rejected_429_total : ℤ
  pub rejected_504_total : ℤ

-- The loops over a worker's models with `break` on the first of the name.
advertises : String → List ModelInfo → Bool
advertises model [] = false
advertises model (m ∷ ms) = str_eq m.name model || advertises model ms

mark_loaded : String → List ModelInfo → List ModelInfo
mark_loaded model [] = []
mark_loaded model (m ∷ ms) =
    let rest = mark_loaded model ms in
    if str_eq m.name model then record m { loaded = true } ∷ ms else m ∷ rest

abbrev is_nil {ℓ} : {A : Type ℓ} → List A → Bool
is_nil [] = true
is_nil (x ∷ xs) = false

module _ {F : Type 0} where
  abbrev ids : List (P.WorkerInfo F) → List String
  ids ws = map (λ w. w.id) ws

  -- The first worker of a list with an id.
  find : String → List (P.WorkerInfo F) → Option (P.WorkerInfo F)
  find id [] = none
  find id (w ∷ ws) = if str_eq w.id id then some w else find id ws

  load_on : String → P.WorkerInfo F → P.WorkerInfo F
  unfolding mark_loaded
  load_on model w = record w {
    capabilities = record w.capabilities { models = mark_loaded model w.capabilities.models };
  }

  unfoldable pub build_candidates :
      Bool
      → (P.WorkerInfo F → Bool)
      → (List (P.WorkerInfo F) → List (P.WorkerInfo F))
      → String
      → List (P.WorkerInfo F)
      → List (P.WorkerInfo F)
  unfolding advertises load_on
  build_candidates include_unloaded load_model sort model cache =
      let loaded = filter_by (λ w. has_loaded model w.capabilities.models) cache in
      let asked =
        map (load_on model)
          (filter_by (λ w. advertises model w.capabilities.models && load_model w) cache) in
      let found = if is_nil loaded then asked else loaded in
      let others =
        filter_by (λ w. not (contains w.id (ids found)) && advertises model w.capabilities.models)
          cache in
      sort (if include_unloaded then found ++ others else found)

  -- The workers that are not excluded.
  abbrev pub admitted : List String → List (P.WorkerInfo F) → List (P.WorkerInfo F)
  admitted excluded ws = filter_by (λ w. not (contains w.id excluded)) ws

module _ (fl : Float64) (addr : String → ℤ → String) where
  open fl use {Val, of_int, leb}

  abbrev pub unknown : Val
  unknown = of_int (negsuc 0)

  -- `load` is none without load data, and `throughput` what the cache has for the model.
  unfoldable pub to_scheduler_worker :
      Option (WorkerQueueStats Val) → Option Val → P.WorkerInfo Val → Sched.WorkerInfo Val
  to_scheduler_worker load throughput w =
      let c = w.capabilities in
      let known = int_ltb (pos 0) c.vram.total_mb in
      let cap = if int_ltb (pos 0) c.concurrency_cap then c.concurrency_cap else negsuc 0 in
      record {
        id = w.id;
        addr = addr w.ip w.port;
        models = c.models;
        vram_total_mb = if known then c.vram.total_mb else pos 0;
        vram_free_mb = if known then c.vram.free_mb else pos 0;
        gpu_util_pct = unknown;
        queue_depth = elim load [ none ↦ negsuc 0 | some l ↦ l.queue_depth ];
        in_flight = elim load [ none ↦ negsuc 0 | some l ↦ l.in_flight ];
        max_in_flight = elim load [
          | none ↦ cap
          | some l ↦
              if int_ltb (pos 0) l.max_in_flight || not (int_ltb (pos 0) c.concurrency_cap)
              then l.max_in_flight
              else cap
        ];
        avg_latency_ms = elim load [
          | none ↦ unknown
          | some l ↦ if leb (of_int (pos 0)) l.avg_wait_ms then l.avg_wait_ms else unknown
        ];
        last_heartbeat = w.last_seen;
        tokens_per_second = elim throughput [ none ↦ of_int (pos 0) | some t ↦ t ];
        allowed_models = c.allowed_models;
        excluded_models = c.excluded_models;
      }

  abbrev pub request_for : String → ModelRequest
  request_for model = record {
    model = model;
    quantization = "";
    max_vram_mb = pos 0;
    min_vram_mb = pos 0;
  }

  -- `FilterByAllowedModels` on the scheduler's view, and back by id.
  map_back : List (Sched.WorkerInfo Val) → List (P.WorkerInfo Val) → List (P.WorkerInfo Val)
  unfolding find
  map_back [] ws = []
  map_back (s ∷ ss) ws =
      let rest = map_back ss ws in elim (find s.id ws) [ none ↦ rest | some w ↦ w ∷ rest ]

  -- The worker of the first view of a list, looked for by its id.
  first_of : List (Sched.WorkerInfo Val) → List (P.WorkerInfo Val) → Option (P.WorkerInfo Val)
  unfolding find
  first_of [] ws = none
  first_of (s ∷ ss) ws = find s.id ws

  willing_first :
      (List (Sched.WorkerInfo Val) → List (Sched.WorkerInfo Val))
      → String
      → (P.WorkerInfo Val → Option Val)
      → List (P.WorkerInfo Val)
      → Option (P.WorkerInfo Val)
  unfolding first_of to_scheduler_worker
  willing_first order model throughput ws =
      first_of
        (order (
          filter_by_allowed_models (request_for model)
            (map (λ w. to_scheduler_worker none (throughput w) w) ws)))
        ws

  -- What the scorer selects is looked for by its id; else the first of the candidates is taken.
  scored :
      Result (SelectedWorker Val) → P.WorkerInfo Val → List (P.WorkerInfo Val) → P.WorkerInfo Val
  unfolding find
  scored (err e) first ws = first
  scored (ok sel) first ws = elim (find sel.worker.id ws) [ none ↦ first | some w ↦ w ]

  choose_candidate :
      (List (Sched.WorkerInfo Val) → Result (SelectedWorker Val))
      → (P.WorkerInfo Val → Sched.WorkerInfo Val)
      → List (P.WorkerInfo Val)
      → Option (P.WorkerInfo Val)
  unfolding scored
  choose_candidate score view [] = none
  choose_candidate score view (w ∷ ws) = some (scored (score (map view (w ∷ ws))) w (w ∷ ws))

  abbrev or_else : Option (P.WorkerInfo Val) → Option (P.WorkerInfo Val) → Option (P.WorkerInfo Val)
  or_else none y = y
  or_else (some x) y = some x

  abbrev or_fail : Option (P.WorkerInfo Val) → Result (P.WorkerInfo Val)
  or_fail none = err no_matching_workers
  or_fail (some w) = ok w

  -- `sort_views` is `sort` on the scheduler's views. `load` and `throughput` are what the hub's snapshot and the cache have for a worker; `format`,
  -- `algo` and `now` are those of the scheduler.
  unfoldable pub select_worker_excluding :
      (Val → String)
      → ScoringAlgorithm Val
      → ℕ
      → Bool
      → (P.WorkerInfo Val → Bool)
      → (List (P.WorkerInfo Val) → List (P.WorkerInfo Val))
      → (List (Sched.WorkerInfo Val) → List (Sched.WorkerInfo Val))
      → (P.WorkerInfo Val → Option (WorkerQueueStats Val))
      → (P.WorkerInfo Val → Option Val)
      → String
      → List (P.WorkerInfo Val)
      → List String
      → Result (P.WorkerInfo Val)
  unfolding build_candidates map_back willing_first choose_candidate to_scheduler_worker
      select_worker
  select_worker_excluding format algo now include_unloaded load_model sort sort_views load
        throughput model cache excluded =
      let candidates =
        admitted excluded (build_candidates include_unloaded load_model sort model cache) in
      let willing = sort (
        map_back
          (filter_by_allowed_models (request_for model)
            (map (λ w. to_scheduler_worker none (throughput w) w) candidates))
          candidates) in
      let chosen =
        choose_candidate
          (λ ws. select_worker fl format algo now (request_for model) ws algo.get_unavailable_ttl)
          (λ w. to_scheduler_worker (load w) (throughput w) w) willing in
      let rest = admitted excluded cache in
      let advertising = filter_by (λ w. advertises model w.capabilities.models) rest in
      or_fail (
        or_else chosen (
          or_else (willing_first (λ vs. vs) model throughput advertising)
            (willing_first sort_views model throughput rest)))
