-- ===== src/Server/Popular/Exact.antt =====
-- `handlePopularModels` of pkg/router/handlers_meta.go against what it reports: the models that the
-- workers of the cache offer, and the calls within the window of the call counter.
use mathlib.Core.Option.{none-ne-some, some_inj}
use infermesh.Prelude.{
  ℕ, zero, suc, ◌+◌, ◌≤◌, ◌≡◌, refl, sym, ap, ◌∙◌, subst, ◌↔◌, String, Bool, true, false, Option,
  none, some, List, [], ◌∷◌, ◌++◌, arith, str_eq, str_eq_refl, str_eq_sound, if◌then◌else◌,
  Bool-cases, inl, inr, Memᴰ, filter_by, tally, Map, lookup, lookup-insert, Distinct, lookup-Fresh,
  insert-Distinct,
}
use infermesh.Protocol.{ModelInfo, WorkerInfo}
use infermesh.CallCounter.{Call, new_call_counter, run, snapshot}
use infermesh.CallCounter.Counts.{occurrences}
use infermesh.CallCounter.Window.{is_live, recorded, Chronological, snapshot_exact}
use infermesh.Server.Popular.{
  ModelStats, PopularModelInfo, or_zero, entry_or, count_model, count_models, popular_info,
  count_workers, popular_models,
}

-- How often a model is offered, and how often loaded.
abbrev pub offers : String → List ModelInfo → ℕ
offers name [] = 0
offers name (m ∷ ms) = let rest = offers name ms in if str_eq m.name name then suc rest else rest

abbrev pub loads : String → List ModelInfo → ℕ
loads name [] = 0
loads name (m ∷ ms) =
    let rest = loads name ms in
    if str_eq m.name name then (if m.loaded then suc rest else rest) else rest

-- The entry of a model after `n` more offers of it; `calls` is the count of its calls.
abbrev pub plus : ℕ → ℕ → ℕ → Option ModelStats → Option ModelStats
plus calls zero loaded none = none
plus calls (suc n) loaded none =
    some (record { worker_count = suc n; loaded_count = loaded; call_count = calls })
plus calls n loaded (some old) =
    some
      (record old { worker_count = old.worker_count + n; loaded_count = old.loaded_count + loaded })

stats_of : ℕ → ℕ → ℕ → Option ModelStats
stats_of a b c = some (record { worker_count = a; loaded_count = b; call_count = c })

-- An entry after one more offer.
abbrev one_more : ℕ → Bool → Option ModelStats → ModelStats
one_more calls loaded stats =
    let old = entry_or calls stats in
    record old {
      worker_count = old.worker_count + 1;
      loaded_count = if loaded then old.loaded_count + 1 else old.loaded_count;
    }

stats_of_eq : (c : ℕ) {a a' b b' : ℕ} → a ≡ a' → b ≡ b' → stats_of a b c ≡ stats_of a' b' c
stats_of_eq c p q = rw (p, q) refl

plus-one_more :
    (calls n l : ℕ) (loaded : Bool) (stats : Option ModelStats)
    → plus calls n l (some (one_more calls loaded stats))
      ≡ plus calls (suc n) (if loaded then suc l else l) stats
unfolding stats_of
plus-one_more calls n l true none = stats_of_eq calls (omega arith) (omega arith)
plus-one_more calls n l false none = stats_of_eq calls (omega arith) (omega arith)
plus-one_more calls n l true (some old) = stats_of_eq old.call_count (omega arith) (omega arith)
plus-one_more calls n l false (some old) = stats_of_eq old.call_count (omega arith) refl

-- One turn of the loop over the models.
plus-count_model :
    (counts : Map ℕ) (name : String) (m : ModelInfo) (ms : List ModelInfo) (stats : Map ModelStats)
    → plus
        (or_zero (lookup name counts))
        (offers name ms)
        (loads name ms)
        (lookup name (count_model counts m stats))
      ≡ plus
          (or_zero (lookup name counts))
          (offers name (m ∷ ms))
          (loads name (m ∷ ms))
          (lookup name stats)
unfolding count_model
plus-count_model counts name m ms stats = elim (Bool-cases (str_eq m.name name)) [
  | inl same ↦
      rw
        (
          lookup-insert m.name name
              (one_more (or_zero (lookup m.name counts)) m.loaded (lookup m.name stats)) stats,
          same,
          str_eq_sound m.name name same,
        )
        (plus-one_more (or_zero (lookup name counts)) (offers name ms) (loads name ms) m.loaded
          (lookup name stats))
  | inr differs ↦
      rw
        (
          lookup-insert m.name name
              (one_more (or_zero (lookup m.name counts)) m.loaded (lookup m.name stats)) stats,
          differs,
        )
        refl
]

plus-nothing : (calls : ℕ) (stats : Option ModelStats) → stats ≡ plus calls 0 0 stats
unfolding stats_of
plus-nothing calls none = refl
plus-nothing calls (some old) = sym (stats_of_eq old.call_count (omega arith) (omega arith))

lookup-count_models :
    (counts : Map ℕ) (name : String) (ms rest : List ModelInfo) (stats : Map ModelStats)
    → plus
        (or_zero (lookup name counts))
        (offers name rest)
        (loads name rest)
        (lookup name (count_models counts ms stats))
      ≡ plus
          (or_zero (lookup name counts))
          (offers name (ms ++ rest))
          (loads name (ms ++ rest))
          (lookup name stats)
unfolding count_models
lookup-count_models counts name [] rest stats = refl
lookup-count_models counts name (m ∷ ms) rest stats =
    lookup-count_models counts name ms rest (count_model counts m stats)
    ∙ plus-count_model counts name m (ms ++ rest) stats

count_models-Distinct :
    (counts : Map ℕ) (ms : List ModelInfo) (stats : Map ModelStats)
    → Distinct stats
    → Distinct (count_models counts ms stats)
unfolding count_models count_model
count_models-Distinct counts [] stats d = d
count_models-Distinct counts (m ∷ ms) stats d =
    count_models-Distinct counts ms (count_model counts m stats) (
      insert-Distinct m.name
        (one_more (or_zero (lookup m.name counts)) m.loaded (lookup m.name stats)) stats d)

abbrev pub info_of : String → ModelStats → PopularModelInfo
info_of model stats = record {
  model = model;
  worker_count = stats.worker_count;
  loaded_worker_count = stats.loaded_count;
  call_count = stats.call_count;
}

Memᴰ-popular_info :
    (name : String) (stats : ModelStats) (m : Map ModelStats)
    → lookup name m ≡ some stats
    → Memᴰ (info_of name stats) (popular_info m)
unfolding lookup
Memᴰ-popular_info name stats [] h = absurd (none-ne-some stats h)
Memᴰ-popular_info name stats ((key, held) ∷ m) h = elim (Bool-cases (str_eq key name)) [
  | inl same ↦ Memᴰ.head (rw (str_eq_sound key name same, some_inj.0 (rw (same, lookup) at h)) refl)
  | inr differs ↦ Memᴰ.tail (Memᴰ-popular_info name stats m (rw (differs, lookup) at h))
]

lookup-popular_info :
    (info : PopularModelInfo) (m : Map ModelStats)
    → Distinct m
    → Memᴰ info (popular_info m)
    → (stats : ModelStats) × (lookup info.model m ≡ some stats) × (info ≡ info_of info.model stats)
unfolding lookup
lookup-popular_info info [] d h = elim h [ ]
lookup-popular_info info ((key, held) ∷ m) d (Memᴰ.head q) =
    (held, rw (q, str_eq_refl key, lookup) refl, rw q refl)
lookup-popular_info info ((key, held) ∷ m) d (Memᴰ.tail h) =
    let (stats, e, q) = lookup-popular_info info m d.1 h in
    elim (Bool-cases (str_eq key info.model)) [
      | inl same ↦ absurd (
          none-ne-some stats (
            sym (lookup-Fresh key m d.0)
            ∙ ap (λ k. lookup k m) (str_eq_sound key info.model same)
            ∙ e))
      | inr differs ↦ (stats, rw (differs, lookup) e, q)
    ]

-- What is reported of a model.
abbrev pub report : String → ℕ → ℕ → ℕ → PopularModelInfo
report model offered loaded calls = record {
  model = model;
  worker_count = offered;
  loaded_worker_count = loaded;
  call_count = calls;
}

reported :
    (calls n l : ℕ) (stats : ModelStats) (model : String)
    → plus calls n l none ≡ some stats
    → (1 ≤ n) × (info_of model stats ≡ report model n l calls)
reported calls zero l stats model h = absurd (none-ne-some stats h)
reported calls (suc n) l stats model h = (omega arith, rw (sym (some_inj.0 h)) refl)

found :
    (calls n l : ℕ)
    → 1 ≤ n
    → plus calls n l none ≡ some (record { worker_count = n; loaded_count = l; call_count = calls })
found calls zero l h = absurd (omega (arith, h))
found calls (suc n) l h = refl

or_zero-tally : (n : ℕ) → or_zero (tally n) ≡ n
or_zero-tally zero = refl
or_zero-tally (suc n) = refl

module _ {F : Type 0} where
  -- The models of all workers.
  abbrev pub offered : Map (WorkerInfo F) → List ModelInfo
  offered [] = []
  offered ((id, w) ∷ cache) = w.capabilities.models ++ offered cache

  lookup-count_workers :
      (counts : Map ℕ) (name : String) (cache : Map (WorkerInfo F)) (stats : Map ModelStats)
      → lookup name (count_workers counts cache stats)
        ≡ plus
            (or_zero (lookup name counts))
            (offers name (offered cache))
            (loads name (offered cache))
            (lookup name stats)
  unfolding count_workers
  lookup-count_workers counts name [] stats =
      plus-nothing (or_zero (lookup name counts)) (lookup name stats)
  lookup-count_workers counts name ((id, w) ∷ cache) stats =
      lookup-count_workers counts name cache (count_models counts w.capabilities.models stats)
      ∙ lookup-count_models counts name w.capabilities.models (offered cache) stats

  count_workers-Distinct :
      (counts : Map ℕ) (cache : Map (WorkerInfo F)) (stats : Map ModelStats)
      → Distinct stats
      → Distinct (count_workers counts cache stats)
  unfolding count_workers
  count_workers-Distinct counts [] stats d = d
  count_workers-Distinct counts ((id, w) ∷ cache) stats d =
      count_workers-Distinct counts cache (count_models counts w.capabilities.models stats)
        (count_models-Distinct counts w.capabilities.models stats d)

  -- The report of popular models, after any history of the call counter in order of time: it lists
  -- exactly the models that workers of the cache offer, with how often each is offered and
  -- offered loaded, and with the number of its calls that were recorded within the window. The sort
  -- keeps the elements of a list.
  pub popular_models_exact :
      (sort : List PopularModelInfo → List PopularModelInfo)
      (sort-same : (xs : List PopularModelInfo) (x : PopularModelInfo)
        → Memᴰ x (sort xs) ↔ Memᴰ x xs)
      (w now : ℕ) (calls : List Call) (cache : Map (WorkerInfo F)) (info : PopularModelInfo)
      → Chronological 0 calls now
      → Memᴰ info (popular_models sort (snapshot now (run (new_call_counter w) calls)).1 cache) ↔ (
          (1 ≤ offers info.model (offered cache))
          × (info
              ≡ report info.model
                  (offers info.model (offered cache))
                  (loads info.model (offered cache))
                  (occurrences info.model (filter_by (is_live w now) (recorded calls)))))
  unfolding popular_models lookup
  popular_models_exact sort sort-same w now calls cache info h =
      let counts = (snapshot now (run (new_call_counter w) calls)).1 in
      let stats = count_workers counts cache [] in
      let n = offers info.model (offered cache) in
      let l = loads info.model (offered cache) in
      let e : or_zero (lookup info.model counts)
          ≡ occurrences info.model (filter_by (is_live w now) (recorded calls)) =
        ap or_zero (snapshot_exact w now calls info.model h)
        ∙ or_zero-tally (occurrences info.model (filter_by (is_live w now) (recorded calls))) in
      let found_as = lookup-count_workers counts info.model cache [] in
      (
        λ listed.
            let (s, f, q) =
              lookup-popular_info info stats (count_workers-Distinct counts cache [] tt)
                ((sort-same (popular_info stats) info).0 listed) in
            let (offered, r) =
              reported (or_zero (lookup info.model counts)) n l s info.model (sym found_as ∙ f) in
            (offered, q ∙ r ∙ ap (report info.model n l) e),
        λ (offered, q). (sort-same (popular_info stats) info).1 (
            subst (λ x. Memᴰ x (popular_info stats)) (sym (q ∙ ap (report info.model n l) (sym e)))
              (Memᴰ-popular_info info.model
                (record {
                  worker_count = n;
                  loaded_count = l;
                  call_count = or_zero (lookup info.model counts);
                })
                stats (found_as ∙ found (or_zero (lookup info.model counts)) n l offered))),
      )
