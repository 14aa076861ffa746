-- ===== src/WsClient/Streams.antt =====
-- How `streamOrFallback` of pkg/worker/ws_client.go relays the chunks of the backend: what is to hold.
pub mod Turns
pub mod Missing
pub mod Loop
use mathlib.Core.List.{append_assoc, append-nil}
use infermesh.Prelude.{
  ℕ, zero, suc, ◌+◌, ◌-◌, length, ◌≡◌, refl, sym, ap, ◌∙◌, subst, arith, ◌⊎◌, inl, inr, String,
  Bool, true, false, none, some, Option, List, [], ◌∷◌, ◌++◌, if◌then◌else◌, map, Memᴰ,
}
use infermesh.WsClient.{
  Message, inference_chunk, inference_response, inference_failed, error, Delivery, sent,
  unmarshalable, undeliverable, Action, emits, closes_chunks, fails, closes_errors, takes_chunk,
  takes_error, cancels, grace_ends, Stream, new_stream, End, running, drained, failed_with,
  unmarshaled, refused, stopped, fell_back, Completion, completed, failed, unmarshalable_response,
  send_last, completion_message, send_completion, Turn, waits, sends, returns, falls_back,
  send_chunk, take_chunk, error_message, take_error, turn, follow, stream_loop, stream_or_fallback,
  Body, undecodable_payload, unknown_kind, invalid_body, request, dispatch_inference_request,
}

abbrev pub chunk_of : Action → List (String × Delivery)
chunk_of (emits c delivery) = (c, delivery) ∷ []
chunk_of x = []

-- The chunks that the backend puts in its channel, with what becomes of them.
abbrev pub emitted : List Action → List (String × Delivery)
emitted [] = []
emitted (x ∷ xs) = chunk_of x ++ emitted xs

abbrev pub one_less : ℕ → ℕ
one_less zero = zero
one_less (suc n) = n

-- How many chunks the channel holds, of `n`, after an action, and after several that do not end a stream.
abbrev pub count_after : ℕ → Action → ℕ
count_after n (emits c delivery) = suc n
count_after n takes_chunk = one_less n
count_after n x = n

abbrev pub waiting : ℕ → List Action → ℕ
waiting n [] = n
waiting n (x ∷ xs) = waiting (count_after n x) xs

-- None of the actions ends a stream whose channel of chunks holds `n` and is closed where `closed`, and
-- whose channel of errors has something to give where `failing`; the grace period is waited for where
-- `first`, until a chunk is taken.
abbrev pub first_after : Bool → ℕ → Bool
first_after first zero = first
first_after first (suc n) = false

abbrev pub Quiet : (first failing closed : Bool) → ℕ → List Action → Type 0
Quiet first failing closed n [] = Unit
Quiet first failing closed n (emits c delivery ∷ xs) = Quiet first failing closed (suc n) xs
Quiet first failing closed n (closes_chunks ∷ xs) = Quiet first failing true n xs
Quiet first failing closed n (fails e ∷ xs) = Quiet first true closed n xs
Quiet first failing closed n (closes_errors ∷ xs) = Quiet first true closed n xs
Quiet first failing closed n (takes_chunk ∷ xs) =
    (n ≡ 0 → closed ≡ false) × Quiet (first_after first n) failing closed (one_less n) xs
Quiet first failing closed n (takes_error ∷ xs) =
    (failing ≡ false) × Quiet first failing closed n xs
Quiet first failing closed n (cancels ∷ xs) = ⊥
Quiet first failing closed n (grace_ends ∷ xs) = (first ≡ false) × Quiet first failing closed n xs

-- The channel of errors has something to give.
abbrev pub offers_error : List (Option String) → Bool → Bool
offers_error [] closed = closed
offers_error (e ∷ es) closed = true

abbrev pub QuietAt : Bool → Stream → List Action → Type 0
QuietAt first s xs =
    Quiet first (offers_error s.errors s.errors_closed) s.chunks_closed (length s.chunks) xs

-- The action that a stream ends so by.
abbrev pub Decides : Action → End → Type 0
Decides x (running s) = ⊥
Decides x drained = x ≡ takes_chunk
Decides x (failed_with e) = x ≡ takes_error
Decides x unmarshaled = x ≡ takes_chunk
Decides x refused = x ≡ takes_chunk
Decides x stopped = x ≡ cancels
Decides x fell_back = x ≡ grace_ends

abbrev pub IsRunning : End → Type 0
IsRunning (running s) = Unit
IsRunning end = ⊥

-- A stream ends by the first of the actions, or runs where there is none.
abbrev pub Decided : List Action → End → Type 0
Decided [] end = IsRunning end
Decided (x ∷ xs) end = Decides x end

abbrev pub all_sent : List String → List (String × Delivery)
all_sent [] = []
all_sent (c ∷ cs) = (c, sent) ∷ all_sent cs

abbrev pub Allowed : Bool → Action → Type 0
Allowed closed (emits c delivery) = closed ≡ false
Allowed closed x = Unit

abbrev pub closed_after : Bool → Action → Bool
closed_after closed closes_chunks = true
closed_after closed x = closed

-- The backend puts no chunk in a channel that it has closed (which panics).
abbrev pub Orderly : Bool → List Action → Type 0
Orderly closed [] = Unit
Orderly closed (x ∷ xs) = Allowed closed x × Orderly (closed_after closed x) xs

-- The message that ends a request whose relaying has ended so, where there is one.
abbrev pub last_message : String → Completion → End → Option Message
last_message id c (running s) = none
last_message id c drained = some (inference_response id none)
last_message id c (failed_with e) = some (error_message id e)
last_message id c unmarshaled = some (error id "marshal chunk")
last_message id c refused = none
last_message id c stopped = none
last_message id c fell_back = some (completion_message id c)

abbrev pub send_if_any : Bool → Option Message → List Message
send_if_any accepted none = []
send_if_any accepted (some m) = send_last accepted m

-- What must have happened, among the actions, for a stream to end so.
abbrev pub Cause : List Action → End → Type 0
Cause xs (running s) = Unit
Cause xs drained = Memᴰ closes_chunks xs
Cause xs (failed_with e) = Memᴰ (fails e) xs ⊎ ((e ≡ none) × Memᴰ closes_errors xs)
Cause xs unmarshaled = (c : String) × Memᴰ (emits c unmarshalable) xs
Cause xs refused = (c : String) × Memᴰ (emits c undeliverable) xs
Cause xs stopped = Memᴰ cancels xs
Cause xs fell_back = Memᴰ grace_ends xs

-- What is missing of the chunks where a stream ends so: while it runs, what its channel holds; nothing
-- where the channel was found closed and empty; any, where another branch was taken before. The grace
-- period ends in the first select only, where no chunk has been relayed.
abbrev pub Missing :
    Bool → Bool → List Action → End → List String → List (String × Delivery) → Type 0
Missing first closed xs (running s) relayed lost = lost ≡ s.chunks
Missing first closed xs drained relayed lost = Orderly closed xs → lost ≡ []
Missing first closed xs (failed_with e) relayed lost = Unit
Missing first closed xs unmarshaled relayed lost = Unit
Missing first closed xs refused relayed lost = Unit
Missing first closed xs stopped relayed lost = Unit
Missing first closed xs fell_back relayed lost = if first then relayed ≡ [] else ⊥

module _ (accepted : Bool) (id kind : String) (c : Completion) (whole : List Action) where
  -- The stream `s` is relayed, through the actions `xs`, with the result `r`. The actions `before` do
  -- not end it, and the next one does, where there is one. As many chunks are sent as were taken by
  -- then; they could all be sent, and are the first ones of those held and put in the channel, in their
  -- order. A last message comes after them, where the end has one.
  pub record Relays (first : Bool) (s : Stream) (xs : List Action) (r : List Message × End)
      : Type 0 where
    pub before : List Action
    pub rest : List Action
    pub split : xs ≡ before ++ rest
    pub quiet : QuietAt first s before
    pub decided : Decided rest r.1
    pub relayed : List String
    pub lost : List (String × Delivery)
    pub taken :
        length relayed + waiting (length s.chunks) before
        ≡ length s.chunks + length (emitted before)
    pub chunks : all_sent relayed ++ lost ≡ s.chunks ++ emitted xs
    pub messages :
        r.0 ≡ map (inference_chunk id kind) relayed ++ send_if_any accepted (last_message id c r.1)
    pub missing : Missing first s.chunks_closed xs r.1 relayed lost
    pub cause : Cause whole r.1
