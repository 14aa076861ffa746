-- ===== src/Routing/RoundTrip.antt =====
-- pkg/router/routing_config.go: the configuration that GET /meta/auto-routing answers is the one that a
-- POST of that answer makes.
use mathlib.Core.Option.{none-ne-some, some_inj}
use infermesh.Prelude.{
  ◌≡◌, refl, sym, ap, ◌∙◌, subst, arith, String, Bool, true, false, ◌||◌, Option, none, some, List,
  [], ◌∷◌, if◌then◌else◌, Bool-cases, Option-cases, inl, inr, str_eq, Map, ℤ, pos, negsuc,
}
use infermesh.Routing.{
  ComplexityTier, tier_simple, tier_medium, tier_hard, tier_hardest, tier_eq, TierMap,
  AutoRoutingConfig, AutoRoutingConfigRequest, tier_to_string, string_to_tier, no_models, put,
  put_named, put_model, put_models, or_default, simple_max, medium_max, built,
  build_auto_routing_config, tiers, name_model, named_models, to_auto_routing_config_dto,
}

-- What strings.TrimSpace does: it trims all at once, and the names of the tiers have no space.
pub record TrimLaws (trim : String → String) : Type 0 where
  pub trim_twice : (s : String) → trim (trim s) ≡ trim s
  pub trim_name : (t : ComplexityTier) → trim (tier_to_string t) ≡ tier_to_string t

-- Every model of the map is trimmed and not empty.
abbrev AreTrimmed : (String → String) → TierMap → Type 0
AreTrimmed trim f =
    (t : ComplexityTier) (m : String) → f t ≡ some m → (trim m ≡ m) × (str_eq m "" ≡ false)

abbrev present : Option String → Bool
present none = false
present (some m) = true

-- Some tier has a model.
abbrev any : TierMap → List ComplexityTier → Bool
any f [] = false
any f (t ∷ ts) = present (f t) || any f ts

string_to_tier-tier_to_string : (t : ComplexityTier) → string_to_tier (tier_to_string t) ≡ some t
unfolding string_to_tier
string_to_tier-tier_to_string tier_simple = refl
string_to_tier-tier_to_string tier_medium = refl
string_to_tier-tier_to_string tier_hard = refl
string_to_tier-tier_to_string tier_hardest = refl

name_filled : (t : ComplexityTier) → str_eq (tier_to_string t) "" ≡ false
name_filled tier_simple = refl
name_filled tier_medium = refl
name_filled tier_hard = refl
name_filled tier_hardest = refl

put-AreTrimmed :
    (trim : String → String) (t : ComplexityTier) (m : String) (f : TierMap)
    → trim m ≡ m
    → str_eq m "" ≡ false
    → AreTrimmed trim f
    → AreTrimmed trim (put t m f)
put-AreTrimmed trim t m f e n a u k g = elim (Bool-cases (tier_eq t u)) [
  | inl same ↦
      let one : m ≡ k = some_inj.0 (rw same at g) in
      subst (λ s. (trim s ≡ s) × (str_eq s "" ≡ false)) one (e, n)
  | inr other ↦ a u k (rw other at g)
]

any-put : (t : ComplexityTier) (m : String) (f : TierMap) → any (put t m f) tiers ≡ true
any-put tier_simple m f = refl
any-put tier_medium m f = ground arith
any-put tier_hard m f = ground arith
any-put tier_hardest m f = ground arith

-- What the loop keeps.
record Kept (trim : String → String) (acc : TierMap × Bool) : Type 0 where
  pub trimmed : AreTrimmed trim acc.0
  pub found : acc.1 ≡ true → any acc.0 tiers ≡ true

put_named-Kept :
    (trim : String → String) (o : Option ComplexityTier) (m : String) (acc : TierMap × Bool)
    → trim m ≡ m
    → str_eq m "" ≡ false
    → Kept trim acc
    → Kept trim (put_named o m acc)
unfolding put_named
put_named-Kept trim none m acc e n k = k
put_named-Kept trim (some t) m (f, b) e n k = record {
  trimmed = put-AreTrimmed trim t m f e n k.trimmed;
  found = λ h. any-put t m f;
}

put_models-Kept :
    (trim : String → String)
    → TrimLaws trim
    → (ms : Map String) (acc : TierMap × Bool) → Kept trim acc
    → Kept trim (put_models trim ms acc)
unfolding put_models put_model
put_models-Kept trim laws [] acc k = k
put_models-Kept trim laws ((name, m) ∷ ms) acc k = put_models-Kept trim laws ms _ once
  where
    once : Kept trim (put_model trim name m acc)
    once = elim (Bool-cases (str_eq (trim name) "" || str_eq (trim m) "")) [
      | inl skip ↦ rw (skip, put_model) k
      | inr take ↦
          rw (take, put_model)
            (put_named-Kept trim (string_to_tier (trim name)) (trim m) acc (laws.trim_twice m)
              (ground arith) k)
    ]

-- The map after an entry of `f` was put over `g`.
abbrev over : Option String → ComplexityTier → TierMap → TierMap
over none t g = g
over (some m) t g = put t m g

abbrev overlay : TierMap → List ComplexityTier → TierMap → TierMap
overlay f [] g = g
overlay f (t ∷ ts) g = overlay f ts (over (f t) t g)

put_model-named :
    (trim : String → String) (t : ComplexityTier) (m : String) (acc : TierMap × Bool)
    → TrimLaws trim
    → trim m ≡ m
    → str_eq m "" ≡ false
    → put_model trim (tier_to_string t) m acc ≡ (put t m acc.0, true)
unfolding put_model put_named
put_model-named trim t m (f, b) laws e n =
    rw (laws.trim_name t, e, name_filled t, n, string_to_tier-tier_to_string t, put_model) refl

or_false : (b : Bool) → (b || false) ≡ b
or_false true = refl
or_false false = refl

or_true : (b : Bool) → (b || true) ≡ true
or_true true = refl
or_true false = refl

put_models-named_models :
    (trim : String → String) (f : TierMap) (ts : List ComplexityTier) (g : TierMap) (b : Bool)
    → TrimLaws trim
    → AreTrimmed trim f
    → put_models trim (named_models f ts) (g, b) ≡ (overlay f ts g, b || any f ts)
unfolding put_models named_models name_model
put_models-named_models trim f [] g b laws a = ap (λ c. (g, c)) (sym (or_false b))
put_models-named_models trim f (t ∷ ts) g b laws a = elim (Option-cases (f t)) [
  | inl e ↦ rw (e, name_model) (put_models-named_models trim f ts g b laws a)
  | inr (m, e) ↦
      rw (e, put_model-named trim t m (g, b) laws (a t m e).0 (a t m e).1, name_model, or_true b)
        (put_models-named_models trim f ts (put t m g) true laws a)
]

or_else : Option String → Option String → Option String
or_else none y = y
or_else (some m) y = some m

over-at :
    (o : Option String) (s t : ComplexityTier) (g : TierMap)
    → over o s g t ≡ (if tier_eq s t then or_else o (g t) else g t)
unfolding or_else
over-at none s t g = ground arith
over-at (some m) s t g = refl

or_else-none : (o : Option String) → or_else o none ≡ o
unfolding or_else
or_else-none none = refl
or_else-none (some m) = refl

-- The entries of a map, put over the empty map, are the map.
overlay-tiers : (f : TierMap) (t : ComplexityTier) → overlay f tiers no_models t ≡ f t
overlay-tiers f tier_simple = rw (over-at, over-at, over-at, over-at) (or_else-none (f tier_simple))
overlay-tiers f tier_medium = rw (over-at, over-at, over-at, over-at) (or_else-none (f tier_medium))
overlay-tiers f tier_hard = rw (over-at, over-at, over-at, over-at) (or_else-none (f tier_hard))
overlay-tiers f tier_hardest =
    rw (over-at, over-at, over-at, over-at) (or_else-none (f tier_hardest))

simple_max_twice : (n : ℤ) → simple_max (or_default 200 (simple_max n)) ≡ simple_max n
unfolding simple_max
simple_max_twice (pos n) = ground arith
simple_max_twice (negsuc n) = ground arith

medium_max_twice :
    (k n : ℤ)
    → medium_max (simple_max k) (or_default 600 (medium_max (simple_max k) n))
      ≡ medium_max (simple_max k) n
unfolding medium_max simple_max
medium_max_twice (pos k) (pos n) = ground arith
medium_max_twice (pos k) (negsuc n) = ground arith
medium_max_twice (negsuc k) (pos n) = ground arith
medium_max_twice (negsuc k) (negsuc n) = ground arith

-- The configuration that a request with this map of models makes.
abbrev configured : AutoRoutingConfigRequest → TierMap → AutoRoutingConfig
configured req f = record {
  models = f;
  simple_max_tokens = simple_max req.simple_max_tokens;
  medium_max_tokens = medium_max (simple_max req.simple_max_tokens) req.medium_max_tokens;
  reasoning_keywords = [];
  reasoning_phrases = [];
  simple_phrases = [];
  use_four_tier_mode = req.use_four_tier;
}

rebuilt :
    (trim : String → String) (req : AutoRoutingConfigRequest) (f : TierMap)
    → TrimLaws trim
    → AreTrimmed trim f
    → any f tiers ≡ true
    → build_auto_routing_config trim (some (to_auto_routing_config_dto (some (configured req f))))
      ≡ some (configured req f)
unfolding build_auto_routing_config to_auto_routing_config_dto built
rebuilt trim req f laws a found =
    ap (built dto) (
      put_models-named_models trim f tiers no_models false laws a
      ∙ ap (λ b. (overlay f tiers no_models, b)) found)
    ∙ thresholds
    ∙ ap (λ g. some (configured req g)) (λ i t. overlay-tiers f t i)
  where
    dto : AutoRoutingConfigRequest
    dto = to_auto_routing_config_dto (some (configured req f))

    thresholds :
        built dto (overlay f tiers no_models, true)
        ≡ some (configured req (overlay f tiers no_models))
    thresholds =
        rw
          (
            simple_max_twice req.simple_max_tokens,
            medium_max_twice req.simple_max_tokens req.medium_max_tokens,
          )
          refl

built-rebuilt :
    (trim : String → String) (req : AutoRoutingConfigRequest) (acc : TierMap × Bool)
    (cfg : AutoRoutingConfig)
    → TrimLaws trim
    → Kept trim acc
    → built req acc ≡ some cfg
    → build_auto_routing_config trim (some (to_auto_routing_config_dto (some cfg))) ≡ some cfg
unfolding built
built-rebuilt trim req (f, false) cfg laws k e = absurd (none-ne-some cfg e)
built-rebuilt trim req (f, true) cfg laws k e =
    subst
      (λ c. build_auto_routing_config trim (some (to_auto_routing_config_dto (some c))) ≡ some c)
      (some_inj.0 e) (rebuilt trim req f laws k.trimmed (k.found refl))

-- A configuration that some request makes is made again by the request that reports it: the answer to
-- GET, sent back by POST, changes nothing, whatever the thresholds, the mode and the names of the first
-- request. Here `trim` is any function that trims all at once and leaves the names of the tiers.
pub build_auto_routing_config-to_auto_routing_config_dto :
    (trim : String → String) (req : Option AutoRoutingConfigRequest) (cfg : AutoRoutingConfig)
    → TrimLaws trim
    → build_auto_routing_config trim req ≡ some cfg
    → build_auto_routing_config trim (some (to_auto_routing_config_dto (some cfg))) ≡ some cfg
unfolding build_auto_routing_config
build_auto_routing_config-to_auto_routing_config_dto trim none cfg laws e =
    absurd (none-ne-some cfg e)
build_auto_routing_config-to_auto_routing_config_dto trim (some req) cfg laws e =
    elim (Bool-cases req.enabled) [
      | inr off ↦ absurd (none-ne-some cfg (rw (off, build_auto_routing_config) at e))
      | inl on ↦ elim (Option-cases req.models) [
        | inl nil ↦ absurd (none-ne-some cfg (rw (on, nil, build_auto_routing_config) at e))
        | inr (ms, given) ↦
            built-rebuilt trim req (put_models trim ms (no_models, false)) cfg laws
              (put_models-Kept trim laws ms (no_models, false)
                (record {
                  trimmed = λ t m g. absurd (none-ne-some m g);
                  found = λ h. absurd (ground (arith, h));
                }))
              (rw (on, given, build_auto_routing_config) at e)
      ]
    ]
