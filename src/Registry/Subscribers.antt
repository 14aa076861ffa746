-- ===== src/Registry/Subscribers.antt =====
-- The channels of the subscribers of internal/registry/memory.go.
use mathlib.Core.List.{append_assoc, append-nil}
use infermesh.Prelude.{
  ℕ, zero, suc, ◌+◌, ◌≤◌, ◌<◌, ◌≡◌, refl, ◌∙◌, List, [], ◌∷◌, ◌++◌, map, arith, if◌then◌else◌, ltb,
  lt→ltb, inl, inr, length, length-append, All, All-append, ◌⊎◌,
}
use infermesh.Registry.Emits.{emitted}
use infermesh.Registry.{
  Event, probe, Subscriber, Registry, sub_buffer, max_sub_failures, send, broadcast, broadcast_all,
  subscribe, prune_subs_loop, prune_subs, handle_event, check_stale, transition, sweep, Call,
  handles, sweeps, subscribes, step, run,
}

module _ {F : Type 0} where
  -- The channel holds no more than its capacity, and a failure count is at most the limit.
  abbrev pub Bounded : Subscriber F → Type 0
  Bounded s = (length s.queue ≤ sub_buffer) × (s.failures ≤ max_sub_failures)

  send-Bounded : (e : Event F) (s : Subscriber F) → Bounded s → Bounded (send e s)
  unfolding send
  send-Bounded e s b = ground (arith, length-append s.queue (e ∷ []))

  broadcast-Bounded :
      (e : Event F) (subs : List (Subscriber F)) → All Bounded subs → All Bounded (broadcast e subs)
  unfolding broadcast
  broadcast-Bounded e [] b = tt
  broadcast-Bounded e (s ∷ subs) b = (send-Bounded e s b.0, broadcast-Bounded e subs b.1)

  broadcast_all-Bounded :
      (es : List (Event F)) (subs : List (Subscriber F))
      → All Bounded subs
      → All Bounded (broadcast_all es subs)
  unfolding broadcast_all
  broadcast_all-Bounded [] subs b = b
  broadcast_all-Bounded (e ∷ es) subs b =
      broadcast_all-Bounded es (broadcast e subs) (broadcast-Bounded e subs b)

  prune_subs_loop-Bounded :
      (subs : List (Subscriber F)) → All Bounded subs → All Bounded (prune_subs_loop subs)
  unfolding prune_subs_loop
  prune_subs_loop-Bounded [] b = tt
  prune_subs_loop-Bounded (s ∷ subs) b =
      ground (arith, prune_subs_loop-Bounded subs b.1, length-append s.queue (probe ∷ []))

  step-Bounded : (r : Registry F) (c : Call F) → All Bounded r.subs → All Bounded (step r c).subs
  unfolding step handle_event check_stale prune_subs subscribe
  step-Bounded r (handles now e) b = broadcast_all-Bounded (transition now e r.workers).1 r.subs b
  step-Bounded r (sweeps now) b =
      let events = (sweep r.cfg now r.workers).1 in
      prune_subs_loop-Bounded (broadcast_all events r.subs) (broadcast_all-Bounded events r.subs b)
  step-Bounded r subscribes b = All-append Bounded r.subs _ b (ground arith)

  -- From subscribers within these bounds on, and whatever happens, no channel holds more than its 32
  -- events and no failure count passes the limit.
  run-Bounded :
      (r : Registry F) (cs : List (Call F)) → All Bounded r.subs → All Bounded (run r cs).subs
  unfolding run
  run-Bounded r [] b = b
  run-Bounded r (c ∷ cs) b = run-Bounded (step r c) cs (step-Bounded r c b)

  abbrev pub prunes : ℕ → List (Subscriber F) → List (Subscriber F)
  prunes zero subs = subs
  prunes (suc n) subs = prunes n (prune_subs_loop subs)

  prune_full :
      (s : Subscriber F)
      → sub_buffer ≤ length s.queue
      → prune_subs_loop (s ∷ []) ≡ (
          if ltb s.failures max_sub_failures
          then record s { failures = suc s.failures } ∷ []
          else [])
  unfolding prune_subs_loop
  prune_full s h = ground arith

  prunes_nil : (n : ℕ) → prunes n [] ≡ []
  unfolding prune_subs_loop
  prunes_nil zero = refl
  prunes_nil (suc n) = prunes_nil n

  -- A subscriber whose channel is full and is not read is kept through as many prunings as its
  -- failure count lacks of 12, and gone after the next.
  prunes_full :
      (n : ℕ) (s : Subscriber F)
      → sub_buffer ≤ length s.queue
      → n + s.failures ≡ max_sub_failures
      → (prunes n (s ∷ []) ≡ record s { failures = max_sub_failures } ∷ [])
        × (prunes (suc n) (s ∷ []) ≡ [])
  prunes_full zero s h k = (ground arith, rw (prune_full s h) (ground arith))
  prunes_full (suc n) s h k =
      rw (prune_full s h, lt→ltb s.failures max_sub_failures (omega arith))
        (prunes_full n (record s { failures = suc s.failures }) h (omega arith))

  broadcast_all-append :
      (es : List (Event F)) (s : Subscriber F) (rest : List (Subscriber F))
      → length s.queue + length es ≤ sub_buffer
      → broadcast_all es (s ∷ rest) ≡ record s { queue = s.queue ++ es } ∷ broadcast_all es rest
  unfolding broadcast_all broadcast send
  broadcast_all-append [] s rest h = rw append-nil refl
  broadcast_all-append (e ∷ es) s rest h =
      rw (lt→ltb (length s.queue) sub_buffer (omega arith), send)
        (broadcast_all-append es (record s { queue = s.queue ++ e ∷ [] }) (map (send e) rest)
            (rw (length-append s.queue (e ∷ [])) (omega arith))
          ∙ rw append_assoc refl)

  -- The first subscriber of a list, with the events `es` in its channel, and the probe of a pruning
  -- where there was one.
  pub record Received (es : List (Event F)) (subs : List (Subscriber F)) : Type 0 where
    pub first : Subscriber F
    pub others : List (Subscriber F)
    pub there : subs ≡ first ∷ others
    pub received : (first.queue ≡ es) ⊎ (first.queue ≡ es ++ probe ∷ [])

  broadcast_all-Received :
      (es : List (Event F)) (s : Subscriber F) (rest : List (Subscriber F))
      → s.queue ≡ []
      → length es < sub_buffer
      → broadcast_all es (s ∷ rest) ≡ record s { queue = es } ∷ broadcast_all es rest
  broadcast_all-Received es s rest q h =
      broadcast_all-append es s rest (rw q (omega arith)) ∙ rw q refl

  prune_subs_loop-room :
      (s : Subscriber F) (subs : List (Subscriber F))
      → length s.queue < sub_buffer
      → prune_subs_loop (s ∷ subs)
        ≡ record { queue = s.queue ++ probe ∷ []; failures = 0 } ∷ prune_subs_loop subs
  unfolding prune_subs_loop
  prune_subs_loop-room s subs h = ground arith

  -- A subscriber that reads its channel empty between the calls receives every event of a call that
  -- broadcasts at most 31 of them, in order, and at most a probe besides.
  pub step-Received :
      (r : Registry F) (c : Call F) (s : Subscriber F) (rest : List (Subscriber F))
      → r.subs ≡ s ∷ rest
      → s.queue ≡ []
      → length (emitted r c) < sub_buffer
      → Received (emitted r c) (step r c).subs
  unfolding step handle_event check_stale prune_subs subscribe
  step-Received r (handles now e) s rest h q l = record {
    first = record s { queue = (emitted r (handles now e)) };
    others = broadcast_all (emitted r (handles now e)) rest;
    there = rw h (broadcast_all-Received (emitted r (handles now e)) s rest q l);
    received = inl refl;
  }
  step-Received r (sweeps now) s rest h q l =
      let es = emitted r (sweeps now) in
      record {
        first = record { queue = es ++ probe ∷ []; failures = 0 };
        others = prune_subs_loop (broadcast_all es rest);
        there =
            rw (h, broadcast_all-Received es s rest q l)
              (prune_subs_loop-room (record s { queue = es }) (broadcast_all es rest) l);
        received = inr refl;
      }
  step-Received r subscribes s rest h q l = record {
    first = s;
    others = rest ++ record { queue = []; failures = 0 } ∷ [];
    there = rw h refl;
    received = inl q;
  }
