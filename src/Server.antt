-- ===== src/Server.antt =====
-- pkg/router/server.go: the settings of the router's server, the weights of its scorer and the names of
-- models that a request may use; and the handlers of pkg/router/handlers_meta.go that change them. The
-- mutexes make each method one step; where a handler reads and changes what no lock keeps in between,
-- it takes both states. A handler is given the method of the request and its decoded body,
-- and returns the status and the code of its answer.
pub mod Weights
pub mod Inference
pub mod Models
pub mod Popular
pub mod Registration
mod Examples
use infermesh.Prelude.{
  ℕ, String, Bool, true, false, not, ◌&&◌, ◌||◌, Option, none, some, List, [], ◌∷◌, str_eq,
  if◌then◌else◌, Map, ℤ, pos, int_leb, int_ltb,
}
use infermesh.Floats.{Float64}
use infermesh.Scheduler.{default_unavailable_ttl}
use infermesh.Scheduler.Score.{
  WeightedScorer, new_weighted_scorer, default_max_queue_depth, effective_max_queue_depth,
}
use infermesh.Routing.{
  AutoRoutingConfig, AutoRoutingConfigRequest, build_auto_routing_config, auto_routing_active,
  resolve_model,
}
use infermesh.Routing.Classifier.{Text, Patterns, ChatRequest, classify, classify_completion}
use infermesh.Aliases.{ModelAliasConfig, build_alias_config, resolve_alias_model}

pub record SchedulerWeights (F : Type 0) : Type 0 where
  pub quant_match : F
  pub vram_free : F
  pub gpu_util : F
  pub queue_depth : F
  pub latency : F
  pub loaded_model_bonus : F
  pub cold_load_penalty : F
  pub max_queue_depth : ℤ
  pub throughput_weight : F

-- Durations are nanoseconds.
pub record Server (F : Type 0) : Type 0 where
  pub proxy_timeout : ℤ
  pub max_attempts : ℤ
  pub retry_budget : ℤ
  pub model_load_timeout : ℤ
  pub auto_routing : Option AutoRoutingConfig
  pub model_aliases : Option ModelAliasConfig
  pub scorer_weights : SchedulerWeights F
  pub scorer : WeightedScorer F

-- The answer of a handler; a code is empty where the answer is no error.
pub record Reply : Type 0 where
  pub status : ℕ
  pub code : String

abbrev pub ok_reply : Reply
ok_reply = record { status = 200; code = "" }

abbrev pub method_not_allowed : Reply
method_not_allowed = record { status = 405; code = "method_not_allowed" }

abbrev pub parse_error : Reply
parse_error = record { status = 400; code = "parse_error" }

-- What decoding a body gives.
pub data Decoded (A : Type 0) : Type 0 where
  decoded : A → Decoded A
  -- io.EOF: the body is empty.
  empty_body : Decoded A
  malformed : Decoded A

-- `if n <= 0 { n = fallback }`
abbrev pub positive_or : ℤ → ℤ → ℤ
positive_or fallback n = if int_leb n (pos 0) then fallback else n

module _ {F : Type 0} where
  unfoldable pub set_proxy_timeout : ℤ → Server F → Server F
  set_proxy_timeout d s = record s { proxy_timeout = positive_or (pos 120000000000) d }

  unfoldable pub set_max_attempts : ℤ → Server F → Server F
  set_max_attempts n s = record s { max_attempts = positive_or (pos 3) n }

  unfoldable pub set_retry_budget : ℤ → Server F → Server F
  set_retry_budget d s = record s { retry_budget = positive_or (pos 60000000000) d }

  unfoldable pub set_model_load_timeout : ℤ → Server F → Server F
  set_model_load_timeout d s = record s { model_load_timeout = positive_or (pos 120000000000) d }

  unfoldable pub set_auto_routing : Option AutoRoutingConfig → Server F → Server F
  set_auto_routing cfg s = record s { auto_routing = cfg }

  unfoldable pub set_model_aliases : Option ModelAliasConfig → Server F → Server F
  set_model_aliases cfg s = record s { model_aliases = cfg }

  -- `POST /meta/aliases`
  unfoldable pub handle_set_aliases :
      (String → String) → String → Decoded (Map String) → Server F → Server F × Reply
  unfolding set_model_aliases
  handle_set_aliases trim method (decoded aliases) s =
      if str_eq method "POST"
      then (set_model_aliases (build_alias_config trim aliases) s, ok_reply)
      else (s, method_not_allowed)
  handle_set_aliases trim method empty_body s =
      (s, if str_eq method "POST" then parse_error else method_not_allowed)
  handle_set_aliases trim method malformed s =
      (s, if str_eq method "POST" then parse_error else method_not_allowed)

  -- `POST /meta/auto-routing`; an empty body is a request that is not enabled.
  unfoldable pub post_auto_routing :
      (String → String) → Decoded AutoRoutingConfigRequest → Server F → Server F × Reply
  unfolding set_auto_routing
  post_auto_routing trim (decoded req) s =
      (set_auto_routing (build_auto_routing_config trim (some req)) s, ok_reply)
  post_auto_routing trim empty_body s = (set_auto_routing none s, ok_reply)
  post_auto_routing trim malformed s = (s, parse_error)

  -- `handleAutoRouting`; the body of the answer to GET is left out.
  unfoldable pub handle_auto_routing :
      (String → String) → String → Decoded AutoRoutingConfigRequest → Server F → Server F × Reply
  unfolding post_auto_routing
  handle_auto_routing trim method body s =
      if str_eq method "GET"
      then (s, ok_reply)
      else if str_eq method "POST"
      then post_auto_routing trim body s
      else (s, method_not_allowed)

-- The result of resolveAutoModelChat and resolveAutoModelCompletion: none is the error that no model is
-- configured for the tier. `tier` is the classification of the request.
unfoldable pub resolve_auto_model :
    (AutoRoutingConfig → String × Bool) → Option AutoRoutingConfig → String → Option String
resolve_auto_model target none model = some model
resolve_auto_model target (some cfg) model =
    if not (str_eq model "auto") || not (auto_routing_active (some cfg))
    then some model
    else if (target cfg).1
    then some (target cfg).0
    else none

unfoldable pub resolve_auto_model_chat :
    Text → Patterns → Option AutoRoutingConfig → String → ChatRequest → Option String
unfolding resolve_auto_model
resolve_auto_model_chat text pats auto model req =
    resolve_auto_model (λ cfg. resolve_model (classify text pats cfg req) (some cfg)) auto model

unfoldable pub resolve_auto_model_completion :
    Text → Patterns → Option AutoRoutingConfig → String → String → ℤ → Option String
unfolding resolve_auto_model
resolve_auto_model_completion text pats auto model prompt max_tokens =
    resolve_auto_model
      (λ cfg. resolve_model (classify_completion text pats cfg prompt max_tokens) (some cfg)) auto
      model
