-- ===== src/Relay/Queue.antt =====
-- The bound of the buffer of cmd/relay/main.go.
use infermesh.Prelude.{
  ℕ, suc, ◌-◌, ◌≤◌, ◌≡◌, refl, arith, leb, true, Option, none, some, List, [], ◌∷◌, ◌++◌,
  Bool-cases, Option-cases, inl, inr, insert, length, length-append, length-drop, get_elem?,
}
use infermesh.Relay.{
  Message, Relay, SendError, drop_oldest, buffer_worker_message, offer, offered, enqueue_frame,
  enqueue_router, take_queue, flush_loop, flush_to, flush_buffered_messages, send_queue_size,
  forward_or_buffer, handle_worker, handle_router, worker_message, worker_gone, router_gone,
  write_head, writer_writes, writer_gone, Call, worker_joins, router_joins, worker_sends,
  worker_leaves, router_leaves, writes, writer_ends, flushes, step, run,
}

module _ {P Frame : Type 0} where
  abbrev pub IsBounded : Relay P Frame → Type 0
  IsBounded r = length r.worker_queue ≤ 256

  buffer_worker_message-IsBounded :
      (m : Message P) (r : Relay P Frame) → IsBounded r → IsBounded (buffer_worker_message m r)
  unfolding buffer_worker_message
  buffer_worker_message-IsBounded m r h =
      elim (Bool-cases (leb send_queue_size (length r.worker_queue))) [
        | inl full ↦ rw full (
            omega (
              arith,
              h,
              length-drop_oldest r.worker_queue,
              length-append (drop_oldest r.worker_queue) (m ∷ []),
              full_least full,
            ))
        | inr room ↦ rw room (ground (arith, length-append r.worker_queue (m ∷ [])))
      ]
    where
      full_least : leb send_queue_size (length r.worker_queue) ≡ true → 256 ≤ length r.worker_queue
      full_least e = ground arith

      length-drop_oldest : (ms : List (Message P)) → length (drop_oldest ms) ≡ length ms - 1
      length-drop_oldest [] = refl
      length-drop_oldest (x ∷ ms) = omega arith

  flush_loop-queue :
      (marshal : Message P → Option Frame) (ch : Option ℕ) (taken : List (Message P)) (flushed : ℕ)
      (rest : List (Message P)) (r : Relay P Frame)
      → r.worker_queue ≡ []
      → length (flush_loop marshal ch taken flushed rest r).worker_queue ≤ length taken
  unfolding flush_loop
  flush_loop-queue marshal ch taken flushed [] r e = rw e (omega arith)
  flush_loop-queue marshal ch taken flushed (m ∷ rest) r e = elim (Option-cases (marshal m)) [
    | inl bad ↦ rw (bad, flush_loop) (flush_loop-queue marshal ch taken flushed rest r e)
    | inr good ↦ elim (Option-cases (offer good.0 ch r.channels)) [
      | inl full ↦ rw (good.1, full, flush_loop) (rw e (omega (arith, length-drop flushed taken)))
      | inr sent ↦
          rw (good.1, sent.1, flush_loop)
            (flush_loop-queue marshal ch taken (suc flushed) rest (record r { channels = sent.0 })
              e)
    ]
  ]

  flush_to-IsBounded :
      (marshal : Message P → Option Frame) (o : Option ℕ) (r : Relay P Frame)
      → IsBounded r
      → IsBounded (flush_to marshal o r)
  unfolding flush_to take_queue
  flush_to-IsBounded marshal none r h = h
  flush_to-IsBounded marshal (some conn) r h = omega (
    arith,
    h,
    flush_loop-queue marshal r.router_send_ch r.worker_queue 0 r.worker_queue
        (record r { worker_queue = [] }) refl,
  )

  flush_buffered_messages-IsBounded :
      (marshal : Message P → Option Frame) (r : Relay P Frame)
      → IsBounded r
      → IsBounded (flush_buffered_messages marshal r)
  unfolding flush_buffered_messages
  flush_buffered_messages-IsBounded marshal r h = flush_to-IsBounded marshal r.router_conn r h

  enqueue_frame-queue :
      (o : Option Frame) (r : Relay P Frame) → (enqueue_frame o r).1.worker_queue ≡ r.worker_queue
  unfolding enqueue_frame offered
  enqueue_frame-queue none r = refl
  enqueue_frame-queue (some f) r = elim (Option-cases (offer f r.router_send_ch r.channels)) [
    | inl e ↦ rw (e, offered) refl
    | inr e ↦ rw (e.1, offered) refl
  ]

  enqueue_router-queue :
      (marshal : Message P → Option Frame) (m : Message P) (r : Relay P Frame)
      → (enqueue_router marshal m r).1.worker_queue ≡ r.worker_queue
  unfolding enqueue_router
  enqueue_router-queue marshal m r = elim (Option-cases r.router_conn) [
    | inl e ↦ rw (e, enqueue_router) refl
    | inr e ↦ rw (e.1, enqueue_router) (enqueue_frame-queue (marshal m) r)
  ]

  forward_or_buffer-IsBounded :
      (o : Option SendError) (r : Relay P Frame) (m : Message P)
      → IsBounded r
      → IsBounded (forward_or_buffer (o, r) m)
  unfolding forward_or_buffer
  forward_or_buffer-IsBounded none r m h = h
  forward_or_buffer-IsBounded (some e) r m h = buffer_worker_message-IsBounded m r h

  same_queue : (r s : Relay P Frame) → s.worker_queue ≡ r.worker_queue → IsBounded r → IsBounded s
  same_queue r s e h = rw e h

  handle_worker-IsBounded :
      (marshal : Message P → Option Frame) (conn : ℕ) (m : Message P) (r : Relay P Frame)
      → IsBounded r
      → IsBounded (handle_worker marshal conn m r)
  unfolding handle_worker
  handle_worker-IsBounded marshal conn m r h =
      let known : Relay P Frame = record r { workers = insert m.worker_id conn r.workers } in
      flush_buffered_messages-IsBounded marshal
        (forward_or_buffer (enqueue_router marshal m known) m)
        (forward_or_buffer-IsBounded (enqueue_router marshal m known).0
          (enqueue_router marshal m known).1 m
          (same_queue known (enqueue_router marshal m known).1
            (enqueue_router-queue marshal m known) h))

  worker_message-IsBounded :
      (marshal : Message P → Option Frame) (m : Message P) (r : Relay P Frame)
      → IsBounded r
      → IsBounded (worker_message marshal m r)
  unfolding worker_message
  worker_message-IsBounded marshal m r h = elim (Option-cases r.router_conn) [
    | inl e ↦ rw (e, worker_message) (buffer_worker_message-IsBounded m r h)
    | inr e ↦
        rw (e.1, worker_message)
          (same_queue r (enqueue_router marshal m r).1 (enqueue_router-queue marshal m r) h)
  ]

  router_gone-queue :
      (conn : ℕ) (r : Relay P Frame) → (router_gone conn r).worker_queue ≡ r.worker_queue
  unfolding router_gone
  router_gone-queue conn r = elim (Option-cases r.router_conn) [
    | inl e ↦ rw (e, router_gone) refl
    | inr e ↦ rw (e.1, router_gone) (ground arith)
  ]

  writer_gone-queue :
      (ch : ℕ) (r : Relay P Frame) → (writer_gone ch r).worker_queue ≡ r.worker_queue
  unfolding writer_gone
  writer_gone-queue ch r = elim (Option-cases r.router_send_ch) [
    | inl e ↦ rw (e, writer_gone) refl
    | inr e ↦ rw (e.1, writer_gone) (ground arith)
  ]

  write_head-queue :
      (ch : ℕ) (o : Option (List Frame)) (r : Relay P Frame)
      → (write_head ch o r).worker_queue ≡ r.worker_queue
  unfolding write_head
  write_head-queue ch none r = refl
  write_head-queue ch (some []) r = refl
  write_head-queue ch (some (f ∷ fs)) r = refl

  step-IsBounded :
      (marshal : Message P → Option Frame) (r : Relay P Frame) (c : Call P)
      → IsBounded r
      → IsBounded (step marshal r c)
  unfolding step handle_router worker_gone writer_writes
  step-IsBounded marshal r (worker_joins conn m) h = handle_worker-IsBounded marshal conn m r h
  step-IsBounded marshal r (router_joins conn) h =
      flush_buffered_messages-IsBounded marshal
        (record r {
          router_conn = some conn;
          router_send_ch = some (length r.channels);
          channels = r.channels ++ [] ∷ [];
        })
        h
  step-IsBounded marshal r (worker_sends m) h = worker_message-IsBounded marshal m r h
  step-IsBounded marshal r (worker_leaves id) h = h
  step-IsBounded marshal r (router_leaves conn) h =
      same_queue r (router_gone conn r) (router_gone-queue conn r) h
  step-IsBounded marshal r (writes ch) h =
      same_queue r (write_head ch (get_elem? r.channels ch) r)
        (write_head-queue ch (get_elem? r.channels ch) r) h
  step-IsBounded marshal r (writer_ends ch) h =
      same_queue r (writer_gone ch r) (writer_gone-queue ch r) h
  step-IsBounded marshal r flushes h = flush_buffered_messages-IsBounded marshal r h

  -- From a relay whose buffer holds at most 256 messages on, and whatever happens, the buffer holds at
  -- most 256 messages, where nothing else happens during a flush.
  pub run-IsBounded :
      (marshal : Message P → Option Frame) (cs : List (Call P)) (r : Relay P Frame)
      → IsBounded r
      → IsBounded (run marshal r cs)
  unfolding run
  run-IsBounded marshal [] r h = h
  run-IsBounded marshal (c ∷ cs) r h =
      run-IsBounded marshal cs (step marshal r c) (step-IsBounded marshal r c h)
