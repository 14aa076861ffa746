-- ===== src/Server/Inference.antt =====
-- `handleInference` of pkg/router/handlers_chat.go, up to the dispatch of the request. It is given what
-- it finds of the rest of the server: the resolution of "auto", the choice of a worker and the state of
-- its cap.
use infermesh.Prelude.{String, Bool, not, Option, none, some, List, [], ◌∷◌, str_eq, if◌then◌else◌}
use infermesh.Protocol.{WorkerInfo}
use infermesh.Aliases.{ModelAliasConfig, resolve_alias_model}
use infermesh.Server.{Reply, method_not_allowed, parse_error}

-- What the handler reads of a request of either kind; whether json.Marshal takes the request.
pub record Request : Type 0 where
  pub model : String
  pub stream : Bool
  pub marshals : Bool

pub data Outcome (F : Type 0) : Type 0 where
  refused : Reply → Outcome F
  -- A stream to a worker, for a model.
  streams : WorkerInfo F → String → Outcome F
  -- A dispatch with failover, for a model.
  dispatches : String → Outcome F

module _ {F : Type 0} where
  -- The branch of a stream: what is counted, and the outcome.
  unfoldable pub start_stream :
      (String → Bool) → String → Option (WorkerInfo F) → List String × Outcome F
  start_stream is_rate_limited model none =
      ([], refused (record { status = 503; code = "no_workers" }))
  start_stream is_rate_limited model (some worker) = (
    model ∷ [],
    if is_rate_limited worker.id
        then refused (record { status = 429; code = "rate_limit_exceeded" })
        else streams worker model,
  )

  -- From the resolution of "auto" on.
  unfoldable pub send_resolved :
      (String → Option (WorkerInfo F))
      → (String → Bool)
      → Option ModelAliasConfig
      → Request
      → Option String
      → List String × Outcome F
  unfolding start_stream
  send_resolved select is_rate_limited aliases req none =
      ([], refused (record { status = 503; code = "auto_routing_error" }))
  send_resolved select is_rate_limited aliases req (some resolved) =
      let model = resolve_alias_model aliases resolved in
      if not req.marshals
      then ([], refused (record { status = 500; code = "marshal_error" }))
      else if req.stream
      then start_stream is_rate_limited model (select model)
      else ([], dispatches model)

  -- The models that the handler itself counts, and its outcome.
  unfoldable pub handle_inference :
      (String → Option (WorkerInfo F))
      → (String → Bool)
      → (String → Option String)
      → Option ModelAliasConfig
      → Bool
      → String
      → Option Request
      → List String × Outcome F
  unfolding send_resolved
  handle_inference select is_rate_limited resolve_auto aliases configured method none =
      ([], refused (if str_eq method "POST" then parse_error else method_not_allowed))
  handle_inference select is_rate_limited resolve_auto aliases configured method (some req) =
      if not (str_eq method "POST")
      then ([], refused method_not_allowed)
      else if not configured
      then ([], refused (record { status = 500; code = "internal_error" }))
      else send_resolved select is_rate_limited aliases req (resolve_auto req.model)
