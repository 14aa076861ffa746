-- ===== src/Relay.antt =====
-- cmd/relay/main.go: the broker between workers and a router. Connections are numbers, and a channel to
-- the router is a place in the store `channels`. `marshal` is json.Marshal of a message. What a method
-- does under one lock is one step; a flush is `take_queue` and then the loop over what was taken, and
-- `flush_buffered_messages` is both with nothing in between. Writes to workers are left out.
pub mod Flush
pub mod Queue
mod Examples
use infermesh.Prelude.{
  ℕ, zero, suc, ◌+◌, ◌-◌, ◌==◌, ltb, leb, String, Bool, true, false, Option, none, some, List, [],
  ◌∷◌, ◌++◌, if◌then◌else◌, str_eq, Map, lookup, insert, delete, length, drop, get_elem?, set,
}

abbrev pub send_queue_size : ℕ
send_queue_size = 256

pub record Message (P : Type 0) : Type 0 where
  pub worker_id : String
  pub payload : P

-- `delivered` is what the writer has written to routers.
pub record Relay (P Frame : Type 0) : Type 0 where
  pub workers : Map ℕ
  pub router_conn : Option ℕ
  pub router_send_ch : Option ℕ
  pub channels : List (List Frame)
  pub worker_queue : List (Message P)
  pub delivered : List Frame

pub data SendError : Type 0 where
  not_connected not_marshaled queue_full : SendError

abbrev pub drop_oldest : {P : Type 0} → List (Message P) → List (Message P)
drop_oldest [] = []
drop_oldest (m ∷ ms) = ms

-- A send that does not block; none where the channel is full, or nil.
unfoldable pub offer :
    {Frame : Type 0} → Frame → Option ℕ → List (List Frame) → Option (List (List Frame))
offer f none channels = none
offer f (some ch) channels = elim (get_elem? channels ch) [
  | none ↦ none
  | some queued ↦
      if ltb (length queued) send_queue_size
      then some (set channels ch (queued ++ f ∷ []))
      else none
]

module _ {P Frame : Type 0} where
  unfoldable pub new_relay : Relay P Frame
  new_relay = record {
    workers = [];
    router_conn = none;
    router_send_ch = none;
    channels = [];
    worker_queue = [];
    delivered = [];
  }

  unfoldable pub buffer_worker_message : Message P → Relay P Frame → Relay P Frame
  buffer_worker_message m r =
      if leb send_queue_size (length r.worker_queue)
      then record r { worker_queue = drop_oldest r.worker_queue ++ m ∷ [] }
      else record r { worker_queue = r.worker_queue ++ m ∷ [] }

  offered : Option (List (List Frame)) → Relay P Frame → Option SendError × Relay P Frame
  offered none r = (some queue_full, r)
  offered (some channels) r = (none, record r { channels = channels })

  enqueue_frame : Option Frame → Relay P Frame → Option SendError × Relay P Frame
  unfolding offered offer
  enqueue_frame none r = (some not_marshaled, r)
  enqueue_frame (some f) r = offered (offer f r.router_send_ch r.channels) r

  -- `sendToRouter` too.
  unfoldable pub enqueue_router :
      (Message P → Option Frame) → Message P → Relay P Frame → Option SendError × Relay P Frame
  unfolding enqueue_frame
  enqueue_router marshal m r = elim r.router_conn [
    | none ↦ (some not_connected, r)
    | some conn ↦ enqueue_frame (marshal m) r
  ]

  unfoldable pub take_queue : Relay P Frame → List (Message P) × Relay P Frame
  take_queue r = (r.worker_queue, record r { worker_queue = [] })

  -- The loop of a flush over `rest` of the messages `taken`.
  flush_loop :
      (Message P → Option Frame)
      → Option ℕ
      → List (Message P)
      → ℕ
      → List (Message P)
      → Relay P Frame
      → Relay P Frame
  unfolding offer
  flush_loop marshal ch taken flushed [] r = r
  flush_loop marshal ch taken flushed (m ∷ rest) r = elim (marshal m) [
    | none ↦ flush_loop marshal ch taken flushed rest r
    | some f ↦ elim (offer f ch r.channels) [
      | none ↦ record r { worker_queue = r.worker_queue ++ drop flushed taken }
      | some channels ↦
          flush_loop marshal ch taken (suc flushed) rest (record r { channels = channels })
    ]
  ]

  flush_to : (Message P → Option Frame) → Option ℕ → Relay P Frame → Relay P Frame
  unfolding take_queue flush_loop
  flush_to marshal none r = r
  flush_to marshal (some conn) r =
      let (taken, k) = take_queue r in flush_loop marshal r.router_send_ch taken 0 taken k

  unfoldable pub flush_buffered_messages :
      (Message P → Option Frame) → Relay P Frame → Relay P Frame
  unfolding flush_to
  flush_buffered_messages marshal r = flush_to marshal r.router_conn r

  -- `handleWorker` up to its read loop, of a message that has the worker's id.
  forward_or_buffer : Option SendError × Relay P Frame → Message P → Relay P Frame
  unfolding buffer_worker_message
  forward_or_buffer (none, r) m = r
  forward_or_buffer (some e, r) m = buffer_worker_message m r

  unfoldable pub handle_worker :
      (Message P → Option Frame) → ℕ → Message P → Relay P Frame → Relay P Frame
  unfolding forward_or_buffer enqueue_router flush_buffered_messages
  handle_worker marshal conn m r =
      let known = record r { workers = insert m.worker_id conn r.workers } in
      flush_buffered_messages marshal (forward_or_buffer (enqueue_router marshal m known) m)

  unfoldable pub handle_router : (Message P → Option Frame) → ℕ → Relay P Frame → Relay P Frame
  unfolding flush_buffered_messages
  handle_router marshal conn r = flush_buffered_messages marshal (record r {
    router_conn = some conn;
    router_send_ch = some (length r.channels);
    channels = r.channels ++ [] ∷ [];
  })

  -- One message of `workerReadLoop`: an error of the send is logged only.
  unfoldable pub worker_message :
      (Message P → Option Frame) → Message P → Relay P Frame → Relay P Frame
  unfolding enqueue_router buffer_worker_message
  worker_message marshal m r = elim r.router_conn [
    | none ↦ buffer_worker_message m r
    | some conn ↦ (enqueue_router marshal m r).1
  ]

  -- The end of `workerReadLoop`.
  unfoldable pub worker_gone : String → Relay P Frame → Relay P Frame
  worker_gone id r = record r { workers = delete id r.workers }

  -- The end of `routerReadLoop`.
  unfoldable pub router_gone : ℕ → Relay P Frame → Relay P Frame
  router_gone conn r = elim r.router_conn [
    | none ↦ r
    | some cur ↦ if cur == conn then record r { router_conn = none } else r
  ]

  write_head : ℕ → Option (List Frame) → Relay P Frame → Relay P Frame
  write_head ch none r = r
  write_head ch (some []) r = r
  write_head ch (some (f ∷ fs)) r = record r {
    channels = set r.channels ch fs;
    delivered = r.delivered ++ f ∷ [];
  }

  -- One frame of `routerWriterLoop`, and its end.
  unfoldable pub writer_writes : ℕ → Relay P Frame → Relay P Frame
  unfolding write_head
  writer_writes ch r = write_head ch (get_elem? r.channels ch) r

  unfoldable pub writer_gone : ℕ → Relay P Frame → Relay P Frame
  writer_gone ch r = elim r.router_send_ch [
    | none ↦ r
    | some cur ↦ if cur == ch then record r { router_send_ch = none } else r
  ]

pub data Call (P : Type 0) : Type 0 where
  worker_joins : ℕ → Message P → Call P
  router_joins : ℕ → Call P
  worker_sends : Message P → Call P
  worker_leaves : String → Call P
  router_leaves writes writer_ends : ℕ → Call P
  flushes : Call P

module _ {P Frame : Type 0} where
  unfoldable pub step : (Message P → Option Frame) → Relay P Frame → Call P → Relay P Frame
  unfolding handle_worker handle_router worker_message worker_gone router_gone writer_writes
      writer_gone flush_buffered_messages
  step marshal r (worker_joins conn m) = handle_worker marshal conn m r
  step marshal r (router_joins conn) = handle_router marshal conn r
  step marshal r (worker_sends m) = worker_message marshal m r
  step marshal r (worker_leaves id) = worker_gone id r
  step marshal r (router_leaves conn) = router_gone conn r
  step marshal r (writes ch) = writer_writes ch r
  step marshal r (writer_ends ch) = writer_gone ch r
  step marshal r flushes = flush_buffered_messages marshal r

  unfoldable pub run : (Message P → Option Frame) → Relay P Frame → List (Call P) → Relay P Frame
  unfolding step
  run marshal r [] = r
  run marshal r (c ∷ cs) = run marshal (step marshal r c) cs
