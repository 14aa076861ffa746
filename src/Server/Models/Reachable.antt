-- ===== src/Server/Models/Reachable.antt =====
-- Every loaded model can be asked for by a name that the router advertises: `handleModelsList` of
-- pkg/router/handlers_meta.go against `handleInference` of pkg/router/handlers_chat.go.
use mathlib.Core.Option.{none-ne-some}
use infermesh.Prelude.{
  ◌≡◌, refl, sym, ap, ◌∙◌, inl, inr, String, Bool, true, false, not, ◌||◌, Option, none, some, List,
  [], ◌∷◌, ◌++◌, arith, str_eq, str_eq_refl, str_eq_sound, subst, if◌then◌else◌, Bool-cases, Memᴰ,
  map, Map, lookup, Distinct, Fresh, lookup-Fresh,
}
use infermesh.Protocol.{ModelInfo, WorkerInfo}
use infermesh.Routing.{AutoRoutingConfig, auto_routing_active}
use infermesh.Aliases.{
  AliasTarget, ModelAliasConfig, any_canonical, model_aliases_active, target_or,
  resolve_alias_model,
}
use infermesh.Scheduler.{contains}
use infermesh.Server.{resolve_auto_model}
use infermesh.Server.Inference.{Request, dispatches, send_resolved, handle_inference}
use infermesh.Server.Models.{
  synthetic, canonical_names, alias_models, hidden_names, advertised_aliases, shown_models,
  worker_models, models_list,
}

-- A model of that name is in the list.
abbrev pub Advertised : String → List ModelInfo → Type 0
Advertised name ms = Memᴰ name (map ModelInfo.name ms)

Advertised-left :
    (name : String) (xs ys : List ModelInfo) → Advertised name xs → Advertised name (xs ++ ys)
Advertised-left name [] ys h = elim h [ ]
Advertised-left name (x ∷ xs) ys (Memᴰ.head q) = Memᴰ.head q
Advertised-left name (x ∷ xs) ys (Memᴰ.tail h) = Memᴰ.tail (Advertised-left name xs ys h)

Advertised-right :
    (name : String) (xs ys : List ModelInfo) → Advertised name ys → Advertised name (xs ++ ys)
Advertised-right name [] ys h = h
Advertised-right name (x ∷ xs) ys h = Memᴰ.tail (Advertised-right name xs ys h)

shown_models-Advertised :
    (hidden : List String) (m : ModelInfo) (ms : List ModelInfo)
    → Memᴰ m ms
    → m.loaded ≡ true
    → contains m.name hidden ≡ false
    → Advertised m.name (shown_models hidden ms)
unfolding shown_models
shown_models-Advertised hidden m [] h l c = elim h [ ]
shown_models-Advertised hidden m (x ∷ xs) (Memᴰ.head q) l c =
    rw (← q, l, c, shown_models) (Memᴰ.head refl)
shown_models-Advertised hidden m (x ∷ xs) (Memᴰ.tail h) l c =
    elim (Bool-cases (not x.loaded || contains x.name hidden)) [
      | inl e ↦ rw e (shown_models-Advertised hidden m xs h l c)
      | inr e ↦ rw e (Memᴰ.tail (shown_models-Advertised hidden m xs h l c))
    ]

-- A later entry is not found under an earlier key.
lookup-later :
    (alias other : String) (first target : AliasTarget) (aliases : Map AliasTarget)
    → Fresh alias aliases
    → lookup other aliases ≡ some target
    → lookup other ((alias, first) ∷ aliases) ≡ some target
unfolding lookup
lookup-later alias other first target aliases f h = elim (Bool-cases (str_eq alias other)) [
  | inl same ↦ absurd (
      none-ne-some target (
        sym (lookup-Fresh alias aliases f)
        ∙ ap (λ k. lookup k aliases) (str_eq_sound alias other same)
        ∙ h))
  | inr differs ↦ rw differs h
]

-- The name is the target of the alias.
abbrev Renames : String → Map AliasTarget → String → Type 0
Renames name aliases alias =
    Advertised alias (alias_models aliases)
    × (lookup alias aliases ≡ some (record { canonical = name }))
    × (any_canonical aliases ≡ true)
    × (str_eq name "" ≡ false)

Renames-later :
    (name alias other : String) (target : AliasTarget) (aliases : Map AliasTarget)
    → Fresh alias aliases
    → Renames name aliases other
    → Renames name ((alias, target) ∷ aliases) other
unfolding alias_models any_canonical
Renames-later name alias other target aliases f h = elim (Bool-cases (str_eq target.canonical "")) [
  | inl e ↦ (
    rw (e, alias_models) h.0,
    lookup-later alias other target (record { canonical = name }) aliases f h.1,
    rw (e, any_canonical) h.2,
    h.3,
  )
  | inr e ↦ (
    rw (e, alias_models) (Memᴰ.tail h.0),
    lookup-later alias other target (record { canonical = name }) aliases f h.1,
    rw (e, any_canonical) refl,
    h.3,
  )
]

here :
    (alias name : String) (target : AliasTarget) (aliases : Map AliasTarget)
    → str_eq target.canonical "" ≡ false
    → target.canonical ≡ name
    → Renames name ((alias, target) ∷ aliases) alias
unfolding alias_models any_canonical lookup
here alias name target aliases e q = (
  rw (e, alias_models) (Memᴰ.head refl),
  rw (str_eq_refl alias, lookup) (ap (λ c. some (record { canonical = c })) q),
  rw (e, any_canonical) refl,
  subst (λ c. str_eq c "" ≡ false) q e,
)

-- The alias of a name that is hidden.
hidden_alias :
    (name : String) (aliases : Map AliasTarget)
    → contains name (canonical_names aliases) ≡ true
    → Distinct aliases
    → (alias : String) × Renames name aliases alias
unfolding canonical_names alias_models lookup any_canonical
hidden_alias name [] h d = absurd (ground (arith, h))
hidden_alias name ((alias, target) ∷ aliases) h d = elim (Bool-cases (str_eq target.canonical "")) [
  | inl e ↦
      let (other, r) = hidden_alias name aliases (rw (e, canonical_names, contains) at h) d.1 in
      (other, Renames-later name alias other target aliases d.0 r)
  | inr e ↦ elim (Bool-cases (str_eq target.canonical name)) [
    | inl same ↦ (alias, here alias name target aliases e (str_eq_sound target.canonical name same))
    | inr differs ↦
        let (other, r) =
          hidden_alias name aliases
            (rw (differs, contains) at (rw (e, canonical_names, contains) at h)) d.1 in
        (other, Renames-later name alias other target aliases d.0 r)
  ]
]

abbrev pub aliases_of : Option ModelAliasConfig → Map AliasTarget
aliases_of none = []
aliases_of (some cfg) = cfg.aliases

-- A name other than "auto" is not for the automatic routing.
resolve_auto_model-other :
    (target : AutoRoutingConfig → String × Bool) (auto : Option AutoRoutingConfig) (model : String)
    → str_eq model "auto" ≡ false
    → resolve_auto_model target auto model ≡ some model
unfolding resolve_auto_model
resolve_auto_model-other target none model h = refl
resolve_auto_model-other target (some cfg) model h = rw h refl

resolve_unaliased :
    (cfg : Option ModelAliasConfig) (model : String)
    → lookup model (aliases_of cfg) ≡ none
    → resolve_alias_model cfg model ≡ model
unfolding resolve_alias_model target_or
resolve_unaliased none model h = refl
resolve_unaliased (some cfg) model h = elim (Bool-cases (any_canonical cfg.aliases)) [
  | inl e ↦ rw (e, h) refl
  | inr e ↦ rw e refl
]

resolve_renamed :
    (cfg : ModelAliasConfig) (alias name : String)
    → Renames name cfg.aliases alias
    → resolve_alias_model (some cfg) alias ≡ name
unfolding resolve_alias_model target_or
resolve_renamed cfg alias name r = rw (r.2, r.1, r.3) refl

-- Every hidden name is the target of an advertised alias.
hidden_names-Renames :
    (cfg : Option ModelAliasConfig) (name : String)
    → contains name (hidden_names cfg) ≡ true
    → Distinct (aliases_of cfg)
    → (alias : String) × Advertised alias (advertised_aliases cfg)
      × (resolve_alias_model cfg alias ≡ name)
      × ((target : AliasTarget) × (lookup alias (aliases_of cfg) ≡ some target))
unfolding hidden_names advertised_aliases
hidden_names-Renames none name h d = absurd (ground (arith, h))
hidden_names-Renames (some cfg) name h d = elim (Bool-cases (any_canonical cfg.aliases)) [
  | inl e ↦
      let active : model_aliases_active (some cfg) ≡ true = unfold model_aliases_active in e in
      let (alias, r) = hidden_alias name cfg.aliases (rw active at h) d in
      (alias, rw active r.0, resolve_renamed cfg alias name r, (record { canonical = name }, r.1))
  | inr e ↦
      let inactive : model_aliases_active (some cfg) ≡ false = unfold model_aliases_active in e in
      absurd (ground (arith, rw inactive at h))
]

-- A request that does not stream.
abbrev pub plain_request : String → Request
plain_request name = record { model = name; stream = false; marshals = true }

-- The models that are not aliases.
abbrev own_models :
    {F : Type 0} → Option AutoRoutingConfig → List String → Map (WorkerInfo F) → List ModelInfo
own_models auto hidden cache =
    worker_models hidden cache
    ++ (if auto_routing_active auto then synthetic "auto" "auto" ∷ [] else [])

-- An alias that is found is not "auto", where that is none.
not_auto :
    (cfg : Option ModelAliasConfig) (alias : String)
    → ((target : AliasTarget) × (lookup alias (aliases_of cfg) ≡ some target))
    → lookup "auto" (aliases_of cfg) ≡ none
    → str_eq alias "auto" ≡ false
not_auto cfg alias t a = elim (Bool-cases (str_eq alias "auto")) [
  | inl same ↦ absurd (
      none-ne-some t.0
        (sym a ∙ ap (λ k. lookup k (aliases_of cfg)) (sym (str_eq_sound alias "auto" same)) ∙ t.1))
  | inr differs ↦ differs
]

module _ {F : Type 0} where
  worker_models-Advertised :
      (hidden : List String) (name id : String) (w : WorkerInfo F) (cache : Map (WorkerInfo F))
      → Memᴰ (id, w) cache
      → Advertised name (shown_models hidden w.capabilities.models)
      → Advertised name (worker_models hidden cache)
  unfolding worker_models
  worker_models-Advertised hidden name id w [] h a = elim h [ ]
  worker_models-Advertised hidden name id w ((j, v) ∷ rest) (Memᴰ.head q) a =
      Advertised-left name (shown_models hidden v.capabilities.models) _
        (subst (λ x. Advertised name (shown_models hidden x.1.capabilities.models)) q a)
  worker_models-Advertised hidden name id w ((j, v) ∷ rest) (Memᴰ.tail h) a =
      Advertised-right name (shown_models hidden v.capabilities.models) _
        (worker_models-Advertised hidden name id w rest h a)

  dispatched :
      (select : String → Option (WorkerInfo F)) (is_rate_limited : String → Bool)
      (target : AutoRoutingConfig → String × Bool) (auto : Option AutoRoutingConfig)
      (cfg : Option ModelAliasConfig) (name model : String)
      → str_eq name "auto" ≡ false
      → resolve_alias_model cfg name ≡ model
      → handle_inference select is_rate_limited
          (resolve_auto_model target auto)
          cfg
          true
          "POST"
          (some (plain_request name))
        ≡ ([], dispatches model)
  unfolding handle_inference send_resolved
  dispatched select is_rate_limited target auto cfg name model h r =
      rw (resolve_auto_model-other target auto name h, r) refl

  -- A model that is loaded on a worker of the cache can be reached through a name that the router
  -- advertises: a request for that name that does not stream is dispatched for the model. The name is
  -- the model's own or, where an alias hides it, the alias. Conditions: the aliases are a map, none of
  -- them is the model's own name, and neither the model nor an alias is called "auto".
  pub models_list-reaches :
      (select : String → Option (WorkerInfo F)) (is_rate_limited : String → Bool)
      (target : AutoRoutingConfig → String × Bool) (auto : Option AutoRoutingConfig)
      (cfg : Option ModelAliasConfig) (cache : Map (WorkerInfo F)) (id : String) (w : WorkerInfo F)
      (m : ModelInfo)
      → Memᴰ (id, w) cache
      → Memᴰ m w.capabilities.models
      → m.loaded ≡ true
      → Distinct (aliases_of cfg)
      → lookup m.name (aliases_of cfg) ≡ none
      → lookup "auto" (aliases_of cfg) ≡ none
      → str_eq m.name "auto" ≡ false
      → (name : String) × Advertised name (models_list auto cfg cache)
        × (handle_inference select is_rate_limited
              (resolve_auto_model target auto)
              cfg
              true
              "POST"
              (some (plain_request name))
            ≡ ([], dispatches m.name))
  unfolding models_list
  models_list-reaches select is_rate_limited target auto cfg cache id w m cached offers loaded d u a
        n =
      elim (Bool-cases (contains m.name (hidden_names cfg))) [
        | inl hidden ↦
            let (alias, shown, r, t) = hidden_names-Renames cfg m.name hidden d in
            (
              alias,
              Advertised-right alias (own_models auto (hidden_names cfg) cache) _ shown,
              dispatched select is_rate_limited target auto cfg alias m.name
                  (not_auto cfg alias t a) r,
            )
        | inr shown ↦ (
          m.name,
          Advertised-left m.name (own_models auto (hidden_names cfg) cache) _ (
              Advertised-left m.name (worker_models (hidden_names cfg) cache) _ (
                worker_models-Advertised (hidden_names cfg) m.name id w cache cached (
                  shown_models-Advertised (hidden_names cfg) m w.capabilities.models offers loaded
                    shown))),
          dispatched select is_rate_limited target auto cfg m.name m.name n
              (resolve_unaliased cfg m.name u),
        )
      ]
