-- ===== src/WsClient/Streams/Missing.antt =====
-- What a stream of pkg/worker/ws_client.go leaves unsent.
use infermesh.Prelude.{◌≡◌, refl, String, Bool, true, false, List, [], ◌∷◌, ◌++◌}
use infermesh.WsClient.{
  Delivery, Action, emits, closes_chunks, fails, closes_errors, takes_chunk, takes_error, cancels,
  grace_ends, Stream, End, running, drained, failed_with, unmarshaled, refused, stopped, fell_back,
  Completion,
}
use infermesh.WsClient.Streams.{emitted, Orderly, Missing}
use infermesh.WsClient.Streams.Turns.{Ended}

emitted-none :
    (closed : Bool) (xs : List Action) → closed ≡ true → Orderly closed xs → emitted xs ≡ []
emitted-none closed [] e h = refl
emitted-none closed (emits c delivery ∷ xs) e h = cc
emitted-none closed (closes_chunks ∷ xs) e h = emitted-none true xs refl h.1
emitted-none closed (fails err ∷ xs) e h = emitted-none closed xs e h.1
emitted-none closed (closes_errors ∷ xs) e h = emitted-none closed xs e h.1
emitted-none closed (takes_chunk ∷ xs) e h = emitted-none closed xs e h.1
emitted-none closed (takes_error ∷ xs) e h = emitted-none closed xs e h.1
emitted-none closed (cancels ∷ xs) e h = emitted-none closed xs e h.1
emitted-none closed (grace_ends ∷ xs) e h = emitted-none closed xs e h.1

pub Missing-onward :
    (first from to : Bool) (xs ys : List Action) (end : End) (relayed : List String)
    (lost : List (String × Delivery))
    → (Orderly from xs → Orderly to ys)
    → Missing first to ys end relayed lost
    → Missing first from xs end relayed lost
Missing-onward first from to xs ys (running s) relayed lost h m = m
Missing-onward first from to xs ys drained relayed lost h m = λ o. m (h o)
Missing-onward first from to xs ys (failed_with e) relayed lost h m = tt
Missing-onward first from to xs ys unmarshaled relayed lost h m = tt
Missing-onward first from to xs ys refused relayed lost h m = tt
Missing-onward first from to xs ys stopped relayed lost h m = tt
Missing-onward first from to xs ys fell_back relayed lost h m = m

pub Missing-next :
    (first closed : Bool) (xs : List Action) (end : End) (text : String) (relayed : List String)
    (lost : List (String × Delivery))
    → Missing false closed xs end relayed lost
    → Missing first closed xs end (text ∷ relayed) lost
Missing-next first closed xs (running s) text relayed lost m = m
Missing-next first closed xs drained text relayed lost m = m
Missing-next first closed xs (failed_with e) text relayed lost m = tt
Missing-next first closed xs unmarshaled text relayed lost m = tt
Missing-next first closed xs refused text relayed lost m = tt
Missing-next first closed xs stopped text relayed lost m = tt
Missing-next first closed xs fell_back text relayed lost m = absurd m

module _ (accepted : Bool) (id kind : String) (c : Completion) (whole : List Action) where
  pub Missing-Ended :
      (first : Bool) (s : Stream) (xs : List Action) (end : End)
      → Ended accepted id kind c whole s end
      → Missing first s.chunks_closed xs end [] (s.chunks ++ emitted xs)
  Missing-Ended first s xs (running t) h = absurd h
  Missing-Ended first s xs drained (none_left, closed) =
      λ o. rw none_left (emitted-none s.chunks_closed xs closed o)
  Missing-Ended first s xs (failed_with e) h = tt
  Missing-Ended first s xs unmarshaled h = tt
  Missing-Ended first s xs refused h = tt
  Missing-Ended first s xs stopped h = tt
  Missing-Ended first s xs fell_back h = absurd h
