-- ===== src/Relay/Examples.antt =====
-- A relay that buffers two messages before a router comes, and the theorems about it.
use infermesh.Prelude.{
  ℕ, suc, ◌≡◌, refl, Option, none, some, List, [], ◌∷◌, arith, insert, lookup, delete,
}
use infermesh.Relay.{
  Message, Relay, new_relay, flush_buffered_messages, Call, worker_joins, worker_sends,
  router_joins, worker_leaves, writes, step, run,
}
use infermesh.Relay.Flush.{on_the_way, flush_buffered_messages-on_the_way}
use infermesh.Relay.Queue.{IsBounded, run-IsBounded}

abbrev frame : Message ℕ → ℕ
frame m = suc m.payload

abbrev marshal : Message ℕ → Option ℕ
marshal m = some (frame m)

abbrev message : ℕ → Message ℕ
message n = record { worker_id = "w"; payload = n }

abbrev history : List (Call ℕ)
history =
    worker_joins 1 (message 0)
    ∷ worker_sends (message 1)
    ∷ router_joins 7
    ∷ writes 0
    ∷ worker_sends (message 2)
    ∷ []

-- The router gets the register first.
delivered_in_order : (run marshal new_relay history).delivered ≡ 1 ∷ []
unfolding run step new_relay insert
delivered_in_order = refl

-- The read loop of a worker's first connection ends after its second has joined.
reconnect_lost :
    lookup "w"
      (run marshal new_relay
        (worker_joins 1 (message 0) ∷ worker_joins 2 (message 0) ∷ worker_leaves "w" ∷ [])).workers
    ≡ none
unfolding run step new_relay insert lookup delete
reconnect_lost = refl

run-IsBounded_example : IsBounded (run marshal new_relay history)
run-IsBounded_example = run-IsBounded marshal history new_relay (unfold new_relay in omega arith)

abbrev waiting : Relay ℕ ℕ
waiting = record {
  workers = [];
  router_conn = some 7;
  router_send_ch = some 0;
  channels = (3 ∷ []) ∷ [];
  worker_queue = message 4 ∷ message 5 ∷ [];
  delivered = [];
}

flush_buffered_messages-on_the_way_example :
    on_the_way frame 0 (flush_buffered_messages marshal waiting) ≡ on_the_way frame 0 waiting
flush_buffered_messages-on_the_way_example =
    flush_buffered_messages-on_the_way marshal frame 7 0 (3 ∷ []) waiting (λ m. refl) refl refl refl
