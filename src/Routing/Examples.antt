-- ===== src/Routing/Examples.antt =====
-- A configuration with two models, a classifier of toy patterns, and the theorems about them.
use infermesh.Prelude.{◌≤◌, ◌≡◌, refl, String, true, false, some, [], ◌∷◌, arith, pos}
use infermesh.Routing.{
  tier_simple, tier_medium, tier_hardest, string_to_tier, AutoRoutingConfig,
  AutoRoutingConfigRequest, build_auto_routing_config, to_auto_routing_config_dto, no_models, put,
}
use infermesh.Routing.RoundTrip.{TrimLaws, build_auto_routing_config-to_auto_routing_config_dto}
use infermesh.Routing.Classifier.{Text, Patterns, ChatRequest, classify, tokens_of, adjustment_of}
use infermesh.Routing.Classifier.Monotone.{rank, classify-monotone}

-- A trim of strings that have no space.
abbrev trim : String → String
trim s = s

trim-TrimLaws : TrimLaws trim
trim-TrimLaws = record { trim_twice = λ s. refl; trim_name = λ t. refl }

abbrev request : AutoRoutingConfigRequest
request = record {
  enabled = true;
  use_four_tier = true;
  models = some (("simple", "small") ∷ ("complex", "large") ∷ ("other", "none") ∷ []);
  simple_max_tokens = pos 2000000;
  medium_max_tokens = pos 0;
}

abbrev config : AutoRoutingConfig
config = record {
  models = put tier_hardest "large" (put tier_simple "small" no_models);
  simple_max_tokens = pos 1000000;
  medium_max_tokens = pos 1000001;
  reasoning_keywords = [];
  reasoning_phrases = [];
  simple_phrases = [];
  use_four_tier_mode = true;
}

request_builds : build_auto_routing_config trim (some request) ≡ some config
unfolding build_auto_routing_config string_to_tier
request_builds = refl

build_auto_routing_config-to_auto_routing_config_dto_example :
    build_auto_routing_config trim (some (to_auto_routing_config_dto (some config))) ≡ some config
build_auto_routing_config-to_auto_routing_config_dto_example =
    build_auto_routing_config-to_auto_routing_config_dto trim (some request) config trim-TrimLaws
      request_builds

abbrev text : Text
text = record {
  len = λ s. 400;
  to_lower = λ s. s;
  contains = λ s p. false;
  split_lines = λ s. s ∷ [];
  runes = λ s. 32 ∷ [];
}

abbrev pats : Patterns
pats = record {
  code_block = λ s. true;
  math_notation = λ s. false;
  numbered_list = λ s. false;
  bullet_points = λ s. false;
  few_shot_patterns = λ s. false;
  role_patterns = λ s. false;
  why_how_questions = λ s. 0;
  what_when_questions = λ s. 0;
}

abbrev default_config : AutoRoutingConfig
default_config = record {
  models = no_models;
  simple_max_tokens = pos 200;
  medium_max_tokens = pos 600;
  reasoning_keywords = [];
  reasoning_phrases = [];
  simple_phrases = [];
  use_four_tier_mode = false;
}

abbrev short : ChatRequest
short = record { contents = "a" ∷ []; max_tokens = pos 0 }

abbrev long : ChatRequest
long = record { contents = "a" ∷ "b" ∷ []; max_tokens = pos 1000 }

-- 100 tokens and one code block; 200 tokens, 200 more for the answer, and a code block.
short_is_medium : classify text pats default_config short ≡ tier_medium
unfolding classify
short_is_medium = refl

long_is_complex : classify text pats default_config long ≡ tier_hardest
unfolding classify
long_is_complex = refl

classify-monotone_example :
    rank (classify text pats default_config short) ≤ rank (classify text pats default_config long)
classify-monotone_example =
    classify-monotone text pats default_config short long (unfold tokens_of in omega arith)
      (unfold adjustment_of in omega arith)
