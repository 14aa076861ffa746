-- ===== src/WsClient/Answers.antt =====
-- What a worker answers to a request for inference: `dispatchInferenceRequest` and `streamOrFallback` of
-- pkg/worker/ws_client.go.
use infermesh.Prelude.{◌≡◌, String, Bool, true, false, List}
use infermesh.WsClient.{
  Message, ping, inference_chunk, inference_response, inference_failed, error, model_load_response,
  Action, new_stream, End, Completion, send_last, Body, undecodable_payload, unknown_kind,
  invalid_body, request,
}
use infermesh.WsClient.Streams.{Relays}

abbrev pub id_of : Message → String
id_of (ping id) = id
id_of (inference_chunk id kind c) = id
id_of (inference_response id body) = id
id_of (inference_failed id err) = id
id_of (error id err) = id
id_of (model_load_response id model loaded err) = id

-- The message ends the call that the router has open for the id.
abbrev pub is_final : Message → Bool
is_final (inference_response id body) = true
is_final (inference_failed id err) = true
is_final (error id err) = true
is_final m = false

-- One message is sent, where the connection accepts it, and it ends the call of the id.
abbrev pub Single : Bool → String → List Message → Type 0
Single accepted id ms =
    (m : Message) × (id_of m ≡ id) × (is_final m ≡ true) × (ms ≡ send_last accepted m)

-- The messages answer the request: a request that streams is relayed, and any other has one answer.
abbrev pub Gives : Bool → Bool → String → Body → List Action → Completion → List Message → Type 0
Gives false accepted id body xs c ms = Single accepted id ms
Gives true accepted id undecodable_payload xs c ms = Single accepted id ms
Gives true accepted id unknown_kind xs c ms = Single accepted id ms
Gives true accepted id (invalid_body kind) xs c ms = Single accepted id ms
Gives true accepted id (request kind false) xs c ms = Single accepted id ms
Gives true accepted id (request kind true) xs c ms =
    (end : End) × Relays accepted id kind c xs true new_stream xs (ms, end)
