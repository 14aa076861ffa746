-- ===== src/WsClient/Examples.antt =====
-- Runs of the worker's connection, and its theorems at inputs that meet the hypotheses.
use infermesh.Prelude.{ℕ, ◌≡◌, refl, true, none, List, [], ◌∷◌, arith}
use infermesh.WsClient.{
  ping, inference_chunk, inference_response, Action, emits, closes_chunks, closes_errors,
  takes_chunk, takes_error, sent, completed, request, in_ping, in_close, in_heartbeat, in_inference,
  send_chunk, take_chunk, take_error, turn, stream_loop, stream_or_fallback,
  dispatch_inference_request, handle_ws_message, reader_loop,
}
use infermesh.WsClient.Backoff.{
  ws_register_backoff_base, doubled, next_backoff, delays, rest_of, Paced, delays-Paced,
}

-- The backend gives two chunks, and closes its channels as streamOpenAI does, errors first.
abbrev actions : List Action
actions =
    emits "a" sent
    ∷ takes_chunk
    ∷ emits "b" sent
    ∷ closes_errors
    ∷ closes_chunks
    ∷ takes_chunk
    ∷ takes_chunk
    ∷ []

-- The same, but the select takes the channel of errors while the second chunk waits.
abbrev errors_first : List Action
errors_first =
    emits "a" sent ∷ takes_chunk ∷ emits "b" sent ∷ closes_errors ∷ takes_error ∷ closes_chunks ∷ []

-- What is said after the request to close is not read.
conversation :
    reader_loop true (
      in_ping "1"
      ∷ in_inference true "2" (request "chat" true) actions (completed "")
      ∷ in_close
      ∷ in_heartbeat
      ∷ [])
    ≡ (ping "1" ∷ [])
      ∷ (inference_chunk "2" "chat" "a"
          ∷ inference_chunk "2" "chat" "b"
          ∷ inference_response "2" none
          ∷ [])
      ∷ []
      ∷ []
unfolding reader_loop handle_ws_message dispatch_inference_request stream_or_fallback stream_loop
    turn take_chunk send_chunk
conversation = refl

-- The second chunk is lost, and the request is answered as if it were complete.
chunk_lost :
    dispatch_inference_request true true "2" (request "chat" true) errors_first (completed "")
    ≡ inference_chunk "2" "chat" "a" ∷ inference_response "2" none ∷ []
unfolding dispatch_inference_request stream_or_fallback stream_loop turn take_chunk take_error
    send_chunk
chunk_lost = refl

-- The largest jitter takes the first wait to 2.4 seconds; with a maximum of two seconds a wait may pass
-- the maximum.
abbrev jitters : List ℕ
jitters = 800000000 ∷ 0 ∷ []

passes_maximum :
    delays ws_register_backoff_base 2000000000 jitters ≡ 1000000000 ∷ 2400000000 ∷ 1600000000 ∷ []
unfolding delays next_backoff doubled
passes_maximum = refl

delays-Paced_example :
    Paced 2000000000 ws_register_backoff_base
      (rest_of (delays ws_register_backoff_base 2000000000 jitters))
unfolding doubled next_backoff
delays-Paced_example =
    delays-Paced 2000000000 jitters (omega arith) (omega arith, (omega arith, tt))
