-- ===== src/Server/Models.antt =====
-- `handleModelsList` of pkg/router/handlers_meta.go: the models that the router advertises. A set of
-- names is a list, and a loop over a map follows its list.
pub mod Reachable
use infermesh.Prelude.{
  String, Bool, true, false, not, ◌&&◌, ◌||◌, Option, none, some, List, [], ◌∷◌, ◌++◌, str_eq,
  if◌then◌else◌, Map, pos,
}
use infermesh.Protocol.{ModelInfo, WorkerInfo}
use infermesh.Routing.{AutoRoutingConfig, auto_routing_active}
use infermesh.Aliases.{AliasTarget, ModelAliasConfig, model_aliases_active}
use infermesh.Scheduler.{contains}

-- A model that stands for others: `backend` is "auto" or "alias".
abbrev pub synthetic : String → String → ModelInfo
synthetic backend name = record {
  name = name;
  size = pos 0;
  quantization = "";
  max_tokens = pos 0;
  backend = backend;
  loaded = true;
}

-- The targets of the aliases, and the aliases that have one.
unfoldable pub canonical_names : Map AliasTarget → List String
canonical_names [] = []
canonical_names ((alias, target) ∷ aliases) =
    let rest = canonical_names aliases in
    if str_eq target.canonical "" then rest else target.canonical ∷ rest

unfoldable pub alias_models : Map AliasTarget → List ModelInfo
alias_models [] = []
alias_models ((alias, target) ∷ aliases) =
    let rest = alias_models aliases in
    if str_eq target.canonical "" then rest else synthetic "alias" alias ∷ rest

-- `hideCanonical`
unfoldable pub hidden_names : Option ModelAliasConfig → List String
unfolding canonical_names
hidden_names none = []
hidden_names (some cfg) =
    if model_aliases_active (some cfg) then canonical_names cfg.aliases else []

unfoldable pub advertised_aliases : Option ModelAliasConfig → List ModelInfo
unfolding alias_models
advertised_aliases none = []
advertised_aliases (some cfg) =
    if model_aliases_active (some cfg) then alias_models cfg.aliases else []

-- The models of one worker.
unfoldable pub shown_models : List String → List ModelInfo → List ModelInfo
shown_models hidden [] = []
shown_models hidden (m ∷ ms) =
    let rest = shown_models hidden ms in
    if not m.loaded || contains m.name hidden then rest else m ∷ rest

module _ {F : Type 0} where
  unfoldable pub worker_models : List String → Map (WorkerInfo F) → List ModelInfo
  unfolding shown_models
  worker_models hidden [] = []
  worker_models hidden ((id, w) ∷ workers) =
      shown_models hidden w.capabilities.models ++ worker_models hidden workers

  unfoldable pub models_list :
      Option AutoRoutingConfig → Option ModelAliasConfig → Map (WorkerInfo F) → List ModelInfo
  unfolding worker_models hidden_names advertised_aliases
  models_list auto aliases cache =
      worker_models (hidden_names aliases) cache
      ++ (if auto_routing_active auto then synthetic "auto" "auto" ∷ [] else [])
      ++ advertised_aliases aliases
