-- ===== src/WsClient.antt =====
-- pkg/worker/ws_client.go: a worker's connection to the router. The messages that a request makes the
-- worker send are a list. A stream has its two channels, and what the backend, the select, the clock and
-- the context do is a sequence of actions. Payloads and errors are texts; the heartbeats and the socket
-- are input and output.
pub mod Answers
pub mod Backoff
pub mod Streams
mod Examples
use infermesh.Prelude.{
  ℕ, ◌+◌, ◌-◌, ◌*◌, ◌/◌, String, Bool, true, false, not, Option, none, some, List, [], ◌∷◌, ◌++◌,
  ltb, leb, str_eq, if◌then◌else◌, ℤ, pos, int_leb,
}

-- A message to the router; the first field is its id.
pub data Message : Type 0 where
  ping : String → Message
  inference_chunk : String → String → String → Message
  -- `Done: true` with a body, where there is one.
  inference_response : String → Option String → Message
  -- `Done: true` with the error of the backend.
  inference_failed : String → String → Message
  error : String → String → Message
  model_load_response : String → String → Bool → String → Message

-- What becomes of a chunk: json.Marshal may refuse it, and the connection may refuse the message.
pub data Delivery : Type 0 where
  sent unmarshalable undeliverable : Delivery

-- What happens while a stream is relayed: what the backend's goroutine does to its two channels, the
-- branch that the select takes, and the end of the context. The channels hold 100 chunks and an error;
-- a goroutine that finds its channel full waits, which is a sequence in which it sends later.
pub data Action : Type 0 where
  -- A chunk is put in `chunkCh`, with what becomes of it when it is sent on.
  emits : String → Delivery → Action
  closes_chunks : Action
  -- A value is put in `errCh`; nil where there is none.
  fails : Option String → Action
  closes_errors : Action
  takes_chunk takes_error cancels : Action
  -- The end of the grace period, which the select before the first chunk waits for besides.
  grace_ends : Action

-- `chunkCh` and `errCh`.
pub record Stream : Type 0 where
  pub chunks : List (String × Delivery)
  pub chunks_closed : Bool
  pub errors : List (Option String)
  pub errors_closed : Bool

abbrev pub new_stream : Stream
new_stream = record { chunks = []; chunks_closed = false; errors = []; errors_closed = false }

-- Where `streamOrFallback` is, or which of its returns is taken.
pub data End : Type 0 where
  running : Stream → End
  drained : End
  failed_with : Option String → End
  unmarshaled refused stopped fell_back : End

-- The result of a call of the backend that does not stream.
pub data Completion : Type 0 where
  completed : String → Completion
  failed : String → Completion
  unmarshalable_response : Completion

-- The last message of a request, where the connection accepts it: the code ignores its error.
abbrev pub send_last : Bool → Message → List Message
send_last accepted m = if accepted then m ∷ [] else []

-- The end of a request by its completion.
abbrev pub completion_message : String → Completion → Message
completion_message id (completed raw) = inference_response id (some raw)
completion_message id (failed err) = inference_failed id err
completion_message id unmarshalable_response = error id "marshal response"

unfoldable pub send_completion : Bool → String → Completion → List Message
send_completion accepted id c = send_last accepted (completion_message id c)

-- What an action does to the relaying of a stream.
pub data Turn : Type 0 where
  waits : Stream → Turn
  sends : Message → Stream → Turn
  returns : List Message → End → Turn
  falls_back : Turn

-- `sendChunk`, and what is done with its result; `t` is the stream without the chunk.
unfoldable pub send_chunk : Bool → String → String → String → Delivery → Stream → Turn
send_chunk accepted id kind c sent t = sends (inference_chunk id kind c) t
send_chunk accepted id kind c unmarshalable t =
    returns (send_last accepted (error id "marshal chunk")) unmarshaled
send_chunk accepted id kind c undeliverable t = returns [] refused

-- The branch of `chunkCh`; it is not taken while the channel is open and empty.
unfoldable pub take_chunk : Bool → String → String → Stream → List (String × Delivery) → Bool → Turn
unfolding send_chunk
take_chunk accepted id kind s ((c, delivery) ∷ chunks) closed =
    send_chunk accepted id kind c delivery (record s { chunks = chunks })
take_chunk accepted id kind s [] true =
    returns (send_last accepted (inference_response id none)) drained
take_chunk accepted id kind s [] false = waits s

abbrev pub error_message : String → Option String → Message
error_message id (some err) = inference_failed id err
error_message id none = inference_response id none

-- The branch of `errCh`: a closed channel gives nil, also while `chunkCh` holds chunks.
unfoldable pub take_error : Bool → String → Stream → List (Option String) → Bool → Turn
take_error accepted id s (e ∷ errors) closed =
    returns (send_last accepted (error_message id e)) (failed_with e)
take_error accepted id s [] true =
    returns (send_last accepted (error_message id none)) (failed_with none)
take_error accepted id s [] false = waits s

unfoldable pub turn : Bool → String → String → Stream → Action → Turn
unfolding take_chunk take_error
turn accepted id kind s (emits c delivery) =
    waits (record s { chunks = s.chunks ++ (c, delivery) ∷ [] })
turn accepted id kind s closes_chunks = waits (record s { chunks_closed = true })
turn accepted id kind s (fails e) = waits (record s { errors = s.errors ++ e ∷ [] })
turn accepted id kind s closes_errors = waits (record s { errors_closed = true })
turn accepted id kind s takes_chunk = take_chunk accepted id kind s s.chunks s.chunks_closed
turn accepted id kind s takes_error = take_error accepted id s s.errors s.errors_closed
turn accepted id kind s cancels = returns [] stopped
turn accepted id kind s grace_ends = falls_back

-- What follows a turn: the select is waited on again, a message is sent before what comes next, or the
-- function returns; `fallback` is what the end of the grace period leads to.
abbrev pub follow :
    Turn
    → (again next : Stream → List Message × End) → (fallback : List Message × End)
    → List Message × End
follow (waits t) again next fallback = again t
follow (sends m t) again next fallback = let (ms, end) = next t in (m ∷ ms, end)
follow (returns ms end) again next fallback = (ms, end)
follow falls_back again next fallback = fallback

-- The loop of `streamOrFallback`: what is sent, and where it ends; it has no branch for a grace period.
unfoldable pub stream_loop : Bool → String → String → Stream → List Action → List Message × End
unfolding turn
stream_loop accepted id kind s [] = ([], running s)
stream_loop accepted id kind s (x ∷ xs) =
    follow (turn accepted id kind s x) (λ t. stream_loop accepted id kind t xs)
      (λ t. stream_loop accepted id kind t xs) (stream_loop accepted id kind s xs)

-- `streamOrFallback`: the select before the first chunk has the same branches as the loop, and one for
-- the end of the grace period.
unfoldable pub stream_or_fallback :
    Bool → String → String → Completion → Stream → List Action → List Message × End
unfolding stream_loop send_completion
stream_or_fallback accepted id kind completion s [] = ([], running s)
stream_or_fallback accepted id kind completion s (x ∷ xs) =
    follow (turn accepted id kind s x) (λ t. stream_or_fallback accepted id kind completion t xs)
      (λ t. stream_loop accepted id kind t xs) (send_completion accepted id completion, fell_back)

-- The body of a request for inference, decoded.
pub data Body : Type 0 where
  undecodable_payload : Body
  unknown_kind : Body
  -- The kind is "chat" or "completion".
  invalid_body : String → Body
  request : String → Bool → Body

-- `dispatchInferenceRequest`, with `dispatchChat` and `dispatchCompletion`, which differ in the calls of
-- the backend only. `accepted` is whether the connection accepts the last message.
unfoldable pub dispatch_inference_request :
    Bool → Bool → String → Body → List Action → Completion → List Message
unfolding stream_or_fallback send_completion
dispatch_inference_request configured accepted id body actions completion =
    if not configured
    then send_last accepted (error id "worker backend not configured")
    else elim body [
      | undecodable_payload ↦ send_last accepted (error id "bad inference request")
      | unknown_kind ↦ send_last accepted (error id "unknown inference kind")
      | invalid_body kind ↦ send_last accepted (error id "invalid request body")
      | request kind stream ↦
          if stream
          then (stream_or_fallback accepted id kind completion new_stream actions).0
          else send_completion accepted id completion
    ]

-- `dispatchModelLoadRequest`: none where the payload is not decoded, and the result of loadModelByName,
-- where the server is configured.
unfoldable pub dispatch_model_load_request :
    String → Option String → Option (Bool × String) → List Message
dispatch_model_load_request id none load = error id "bad model load request" ∷ []
dispatch_model_load_request id (some model) none =
    model_load_response id model false "worker server not configured" ∷ []
dispatch_model_load_request id (some model) (some (loaded, err)) =
    model_load_response id model loaded err ∷ []

-- A message of the router.
pub data Inbound : Type 0 where
  in_ping : String → Inbound
  in_heartbeat in_close in_error unexpected : Inbound
  in_inference : Bool → String → Body → List Action → Completion → Inbound
  in_model_load : String → Option String → Option (Bool × String) → Inbound

-- `handleWSMessage`, where its own sends succeed: what is sent in answer, and whether the loop ends. What
-- the goroutines of requests send is listed here as well.
unfoldable pub handle_ws_message : Bool → Inbound → List Message × Bool
unfolding dispatch_inference_request dispatch_model_load_request
handle_ws_message configured (in_ping id) = (ping id ∷ [], false)
handle_ws_message configured in_heartbeat = ([], false)
handle_ws_message configured in_close = ([], true)
handle_ws_message configured in_error = ([], false)
handle_ws_message configured unexpected = ([], false)
handle_ws_message configured (in_inference accepted id body actions completion) =
    (dispatch_inference_request configured accepted id body actions completion, false)
handle_ws_message configured (in_model_load id model load) =
    (dispatch_model_load_request id model load, false)

-- `wsReaderLoop` over the messages that arrive: what is sent in answer to each.
unfoldable pub reader_loop : Bool → List Inbound → List (List Message)
unfolding handle_ws_message
reader_loop configured [] = []
reader_loop configured (m ∷ ms) =
    let rest = reader_loop configured ms in
    let (out, ends) = handle_ws_message configured m in out ∷ (if ends then [] else rest)

pub record WsConfig : Type 0 where
  pub heartbeat_interval : ℤ
  pub max_reconnect_delay : ℤ
  pub write_timeout : ℤ

abbrev pub default_if_unset : ℤ → ℤ → ℤ
default_if_unset fallback d = if int_leb d (pos 0) then fallback else d

-- `withDefaults`; the two intervals of package wsutil are arguments.
unfoldable pub with_defaults : ℤ → ℤ → WsConfig → WsConfig
with_defaults heartbeat write c = record {
  heartbeat_interval = default_if_unset heartbeat c.heartbeat_interval;
  max_reconnect_delay = default_if_unset (pos 30000000000) c.max_reconnect_delay;
  write_timeout = default_if_unset write c.write_timeout;
}
