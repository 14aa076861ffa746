-- ===== src/Routing.antt =====
-- pkg/router/routing_config.go and the types of pkg/router/classifier.go: the configuration of automatic
-- routing, and its form on the wire. No value of `ComplexityTier` but the four constants is made, so a
-- map keyed by tiers is a function. `trim` is strings.TrimSpace. A loop over a map follows a list; the
-- source may go through it in any order.
pub mod RoundTrip
pub mod Classifier
mod Examples
use infermesh.Prelude.{
  ℕ, suc, ◌+◌, String, Bool, true, false, not, ◌&&◌, ◌||◌, Option, none, some, List, [], ◌∷◌,
  if◌then◌else◌, str_eq, Map, insert, ℤ, pos, ◌+ℤ◌, int_leb, int_ltb,
}

pub data ComplexityTier : Type 0 where
  tier_simple tier_medium tier_hard tier_hardest : ComplexityTier

-- `TierComplex` is the same value as `TierHardest`.
abbrev pub tier_complex : ComplexityTier
tier_complex = tier_hardest

abbrev pub tier_eq : ComplexityTier → ComplexityTier → Bool
tier_eq tier_simple tier_simple = true
tier_eq tier_medium tier_medium = true
tier_eq tier_hard tier_hard = true
tier_eq tier_hardest tier_hardest = true
tier_eq a b = false

abbrev pub TierMap : Type 0
TierMap = ComplexityTier → Option String

pub record AutoRoutingConfig : Type 0 where
  pub models : TierMap
  pub simple_max_tokens : ℤ
  pub medium_max_tokens : ℤ
  pub reasoning_keywords : List String
  pub reasoning_phrases : List String
  pub simple_phrases : List String
  pub use_four_tier_mode : Bool

-- `models` is none where the map is nil.
pub record AutoRoutingConfigRequest : Type 0 where
  pub enabled : Bool
  pub use_four_tier : Bool
  pub models : Option (Map String)
  pub simple_max_tokens : ℤ
  pub medium_max_tokens : ℤ

abbrev pub tier_to_string : ComplexityTier → String
tier_to_string tier_simple = "simple"
tier_to_string tier_medium = "medium"
tier_to_string tier_hard = "hard"
tier_to_string tier_hardest = "hardest"

unfoldable pub string_to_tier : String → Option ComplexityTier
string_to_tier name =
    if str_eq name "simple"
    then some tier_simple
    else if str_eq name "medium"
    then some tier_medium
    else if str_eq name "hard"
    then some tier_hard
    else if str_eq name "hardest" || str_eq name "complex"
    then some tier_hardest
    else none

abbrev pub no_models : TierMap
no_models t = none

-- `models[tier] = model`
abbrev pub put : ComplexityTier → String → TierMap → TierMap
put tier model models t = if tier_eq tier t then some model else models t

put_named : Option ComplexityTier → String → TierMap × Bool → TierMap × Bool
put_named none model acc = acc
put_named (some tier) model (models, has_model) = (put tier model models, true)

-- One turn of the loop: the map, and `hasModel`.
unfoldable pub put_model : (String → String) → String → String → TierMap × Bool → TierMap × Bool
unfolding put_named
put_model trim name model acc =
    if str_eq (trim name) "" || str_eq (trim model) ""
    then acc
    else put_named (string_to_tier (trim name)) (trim model) acc

unfoldable pub put_models : (String → String) → Map String → TierMap × Bool → TierMap × Bool
unfolding put_model
put_models trim [] acc = acc
put_models trim ((name, model) ∷ rest) acc = put_models trim rest (put_model trim name model acc)

abbrev pub max_threshold : ℤ
max_threshold = pos 1000000

abbrev pub at_most : ℤ → ℤ → ℤ
at_most bound n = if int_ltb bound n then bound else n

abbrev pub or_default : ℕ → ℤ → ℤ
or_default d n = if int_leb n (pos 0) then pos d else n

unfoldable pub simple_max : ℤ → ℤ
simple_max n = at_most max_threshold (or_default 200 n)

unfoldable pub medium_max : ℤ → ℤ → ℤ
medium_max simple n =
    let medium = at_most max_threshold (or_default 600 n) in
    if int_leb medium simple then simple +ℤ pos 1 else medium

built : AutoRoutingConfigRequest → TierMap × Bool → Option AutoRoutingConfig
unfolding simple_max medium_max
built req (models, false) = none
built req (models, true) = some (record {
  models = models;
  simple_max_tokens = simple_max req.simple_max_tokens;
  medium_max_tokens = medium_max (simple_max req.simple_max_tokens) req.medium_max_tokens;
  reasoning_keywords = [];
  reasoning_phrases = [];
  simple_phrases = [];
  use_four_tier_mode = req.use_four_tier;
})

unfoldable pub build_auto_routing_config :
    (String → String) → Option AutoRoutingConfigRequest → Option AutoRoutingConfig
unfolding built put_models
build_auto_routing_config trim none = none
build_auto_routing_config trim (some req) = if not req.enabled then none else elim req.models [
  | none ↦ none
  | some models ↦ built req (put_models trim models (no_models, false))
]

abbrev pub tiers : List ComplexityTier
tiers = tier_simple ∷ tier_medium ∷ tier_hard ∷ tier_hardest ∷ []

name_model : ComplexityTier → Option String → Map String → Map String
name_model tier none rest = rest
name_model tier (some model) rest = (tier_to_string tier, model) ∷ rest

-- The entries of the map, by the names of their tiers, which are distinct.
unfoldable pub named_models : TierMap → List ComplexityTier → Map String
unfolding name_model
named_models models [] = []
named_models models (t ∷ ts) = name_model t (models t) (named_models models ts)

unfoldable pub to_auto_routing_config_dto : Option AutoRoutingConfig → AutoRoutingConfigRequest
unfolding named_models
to_auto_routing_config_dto none = record {
  enabled = false;
  use_four_tier = false;
  models = some [];
  simple_max_tokens = pos 0;
  medium_max_tokens = pos 0;
}
to_auto_routing_config_dto (some cfg) = record {
  enabled = true;
  use_four_tier = cfg.use_four_tier_mode;
  models = some (named_models cfg.models tiers);
  simple_max_tokens = or_default 200 cfg.simple_max_tokens;
  medium_max_tokens = or_default 600 cfg.medium_max_tokens;
}

abbrev pub filled : Option String → Bool
filled none = false
filled (some model) = not (str_eq model "")

unfoldable pub auto_routing_active : Option AutoRoutingConfig → Bool
auto_routing_active none = false
auto_routing_active (some cfg) =
    filled (cfg.models tier_simple)
    || filled (cfg.models tier_medium)
    || filled (cfg.models tier_hard)
    || filled (cfg.models tier_hardest)

unfoldable pub resolve_model : ComplexityTier → Option AutoRoutingConfig → String × Bool
resolve_model tier none = ("", false)
resolve_model tier (some cfg) = elim (cfg.models tier) [
  | none ↦ ("", false)
  | some model ↦ (model, not (str_eq model ""))
]
