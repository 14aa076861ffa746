-- ===== src/Hub/Bounds.antt =====
-- The caps on the calls in flight over the relay, over the histories of the hub: pkg/router/ws_hub.go
-- (`SetMaxInFlight`, `SetWorkerMaxInFlight`, `maxInFlightFor`).
use text.Mathlib.TextEquality.{eq_iff}
use infermesh.Prelude.{
  ℕ, ◌≤◌, ◌<◌, ◌≡◌, refl, ◌∙◌, String, false, Option, none, some, List, [], ◌∷◌, arith, str_eq, leb,
  Bool-cases, Option-cases, inl, inr, lookup, Entries, insert-Entries, delete-Entries,
  lookup-Entries, get_elem?, ℤ, pos, int_leb, pos_part,
}
use infermesh.Hub.{
  RelayCall, Hub, new_hub, register_new, register_relay_call, relay_in_flight_at, hub_default,
  max_in_flight_for, finish_open, finish_at, finish_call, finish_calls, values,
  fail_all_relay_pending, cleanup_relay_metrics, relay_lost, set_max_in_flight,
  set_worker_max_in_flight, record_relay_timeout, forget_cap, Call, sets_max, sets_worker_max,
  registers, finishes, fails_all, loses_relay, times_out, forgets, step, run,
}
use infermesh.Hub.Relay.{open_of, open_of-append, open_of-set, Agrees}
use infermesh.Hub.Limits.{relay_in_flight_at-open_of}
use infermesh.Hub.Histories.{step-Agrees, new_hub-Agrees}

-- No cap of the hub is above `n`.
record CapsBelow (n : ℕ) (h : Hub) : Type 0 where
  pub hub_cap : h.max_in_flight ≤ n
  pub worker_caps : Entries (λ w cap. cap ≤ n) h.worker_max_in_flight

-- The call sets no cap above `n`.
abbrev pub SetsBelow : ℕ → Call → Type 0
SetsBelow n (sets_max k) = pos_part k ≤ n
SetsBelow n (sets_worker_max w k) = pos_part k ≤ n
SetsBelow n call = Unit

-- No call of the history does.
abbrev pub AllSetBelow : ℕ → List Call → Type 0
AllSetBelow n [] = Unit
AllSetBelow n (c ∷ cs) = SetsBelow n c × AllSetBelow n cs

hub_default_bound : (k n : ℕ) → 4 ≤ n → k ≤ n → hub_default k ≤ n
unfolding hub_default
hub_default_bound k n d h = ground arith

max_in_flight_for_bound :
    (w : String) (n : ℕ) (h : Hub) → 4 ≤ n → CapsBelow n h → max_in_flight_for w h ≤ n
unfolding max_in_flight_for
max_in_flight_for_bound w n h d caps = elim (Option-cases (lookup w h.worker_max_in_flight)) [
  | inl e ↦ rw (e, max_in_flight_for) (hub_default_bound h.max_in_flight n d caps.hub_cap)
  | inr e ↦
      rw (e.1, max_in_flight_for)
        (ground (
          arith,
          lookup-Entries (λ v cap. cap ≤ n) w e.0 h.worker_max_in_flight caps.worker_caps e.1,
          hub_default_bound h.max_in_flight n d caps.hub_cap,
        ))
]

-- Every worker that has a name has at most `n` calls that are not finished.
abbrev pub AtMost : ℕ → List RelayCall → Type 0
AtMost n calls = (w : String) → str_eq w "" ≡ false → open_of w calls ≤ n

set_max_in_flight-CapsBelow :
    (k : ℤ) (n : ℕ) (h : Hub)
    → 4 ≤ n
    → pos_part k ≤ n
    → CapsBelow n h
    → CapsBelow n (set_max_in_flight k h)
unfolding set_max_in_flight
set_max_in_flight-CapsBelow k n h d b c = elim (Bool-cases (int_leb k (pos 0))) [
  | inl e ↦ rw e (record { hub_cap = d; worker_caps = c.worker_caps })
  | inr e ↦ rw e (record { hub_cap = b; worker_caps = c.worker_caps })
]

set_worker_max_in_flight-CapsBelow :
    (w : String) (k : ℤ) (n : ℕ) (h : Hub)
    → pos_part k ≤ n
    → CapsBelow n h
    → CapsBelow n (set_worker_max_in_flight w k h)
unfolding set_worker_max_in_flight
set_worker_max_in_flight-CapsBelow w k n h b c = elim (Bool-cases (int_leb k (pos 0))) [
  | inl e ↦ rw e (record {
    hub_cap = c.hub_cap;
    worker_caps = delete-Entries (λ v cap. cap ≤ n) w h.worker_max_in_flight c.worker_caps;
  })
  | inr e ↦ rw e (record {
    hub_cap = c.hub_cap;
    worker_caps =
        insert-Entries (λ v cap. cap ≤ n) w (pos_part k) h.worker_max_in_flight b c.worker_caps;
  })
]

-- What a step that registers nothing and sets no cap may do.
record Settles (h k : Hub) : Type 0 where
  pub same_cap : k.max_in_flight ≡ h.max_in_flight
  pub same_caps : k.worker_max_in_flight ≡ h.worker_max_in_flight
  pub fewer : (w : String) → open_of w k.calls ≤ open_of w h.calls

finish_at-Settles :
    (ref : ℕ) (o : Option RelayCall) (now : ℕ) (h : Hub)
    → get_elem? h.calls ref ≡ o
    → Settles h (finish_at ref o now h)
unfolding finish_at finish_open
finish_at-Settles ref none now h e = record {
  same_cap = refl;
  same_caps = refl;
  fewer = λ w. omega arith;
}
finish_at-Settles ref (some c) now h e = elim (Bool-cases c.closed) [
  | inl t ↦ rw t (record { same_cap = refl; same_caps = refl; fewer = λ w. omega arith })
  | inr t ↦ rw t (record {
    same_cap = refl;
    same_caps = refl;
    fewer = λ w. ground (arith, open_of-set w h.calls ref c e t);
  })
]

finish_calls-Settles : (refs : List ℕ) (now : ℕ) (h : Hub) → Settles h (finish_calls refs now h)
unfolding finish_calls finish_call
finish_calls-Settles [] now h = record {
  same_cap = refl;
  same_caps = refl;
  fewer = λ w. omega arith;
}
finish_calls-Settles (ref ∷ refs) now h =
    let first = finish_at-Settles ref (get_elem? h.calls ref) now h refl in
    let rest = finish_calls-Settles refs now (finish_call ref now h) in
    record {
      same_cap = rest.same_cap ∙ first.same_cap;
      same_caps = rest.same_caps ∙ first.same_caps;
      fewer = λ w. omega (arith, first.fewer w, rest.fewer w);
    }

-- The hub after a history whose calls set no cap above `n`.
record WithinCap (n : ℕ) (h : Hub) : Type 0 where
  pub agrees : Agrees h
  pub caps : CapsBelow n h
  pub few : AtMost n h.calls

Settles-CapsBelow : (n : ℕ) (h k : Hub) → Settles h k → CapsBelow n h → CapsBelow n k
Settles-CapsBelow n h k s c = record {
  hub_cap = rw s.same_cap c.hub_cap;
  worker_caps = rw s.same_caps c.worker_caps;
}

Settles-AtMost : (n : ℕ) (h k : Hub) → Settles h k → AtMost n h.calls → AtMost n k.calls
Settles-AtMost n h k s few w named = omega (arith, s.fewer w, few w named)

register_new-AtMost :
    (id w : String) (now : ℕ) (o : Option ℕ) (n : ℕ) (h : Hub)
    → (str_eq w "" ≡ false → open_of w h.calls < n)
    → AtMost n h.calls
    → AtMost n (register_new id w now o h).1.calls
unfolding register_new
register_new-AtMost id w now none n h below few v named = ground (
  arith,
  open_of-append v h.calls (record { id = id; worker_id = w; queued_at = now; closed = false }),
  few v named,
  below,
  eq_iff w v,
)
register_new-AtMost id w now (some ref) n h below few v named = few v named

register_relay_call-AtMost :
    (id w : String) (now : ℕ) (n : ℕ) (h : Hub)
    → 4 ≤ n
    → WithinCap n h
    → AtMost n (register_relay_call id w now h).1.calls
unfolding register_relay_call
register_relay_call-AtMost id w now n h d b =
    elim (Bool-cases (leb (max_in_flight_for w h) (relay_in_flight_at w h))) [
      | inl e ↦ rw e b.few
      | inr e ↦ rw e (
          register_new-AtMost id w now (lookup id h.relay_pending) n h
            (λ named. ground (
              arith,
              relay_in_flight_at-open_of w h b.agrees named,
              max_in_flight_for_bound w n h d b.caps,
            ))
            b.few)
    ]

register_new-CapsBelow :
    (id w : String) (now : ℕ) (o : Option ℕ) (n : ℕ) (h : Hub)
    → CapsBelow n h
    → CapsBelow n (register_new id w now o h).1
unfolding register_new
register_new-CapsBelow id w now none n h c = record {
  hub_cap = c.hub_cap;
  worker_caps = c.worker_caps;
}
register_new-CapsBelow id w now (some ref) n h c = c

register_relay_call-CapsBelow :
    (id w : String) (now : ℕ) (n : ℕ) (h : Hub)
    → CapsBelow n h
    → CapsBelow n (register_relay_call id w now h).1
unfolding register_relay_call
register_relay_call-CapsBelow id w now n h c =
    elim (Bool-cases (leb (max_in_flight_for w h) (relay_in_flight_at w h))) [
      | inl e ↦ rw e (record { hub_cap = c.hub_cap; worker_caps = c.worker_caps })
      | inr e ↦ rw e (register_new-CapsBelow id w now (lookup id h.relay_pending) n h c)
    ]

step-CapsBelow :
    (n : ℕ) (h : Hub) (call : Call)
    → 4 ≤ n
    → SetsBelow n call
    → CapsBelow n h
    → CapsBelow n (step h call)
unfolding step fail_all_relay_pending relay_lost cleanup_relay_metrics record_relay_timeout
    forget_cap finish_call
step-CapsBelow n h (sets_max k) d s c = set_max_in_flight-CapsBelow k n h d s c
step-CapsBelow n h (sets_worker_max w k) d s c = set_worker_max_in_flight-CapsBelow w k n h s c
step-CapsBelow n h (registers id w now) d s c = register_relay_call-CapsBelow id w now n h c
step-CapsBelow n h (finishes ref now) d s c =
    Settles-CapsBelow n h _ (finish_at-Settles ref (get_elem? h.calls ref) now h refl) c
step-CapsBelow n h (fails_all now) d s c =
    Settles-CapsBelow n h _ (finish_calls-Settles (values h.relay_pending) now h) c
step-CapsBelow n h (loses_relay now) d s c =
    let k = Settles-CapsBelow n h _ (finish_calls-Settles (values h.relay_pending) now h) c in
    record { hub_cap = k.hub_cap; worker_caps = k.worker_caps }
step-CapsBelow n h (times_out w) d s c = record { hub_cap = c.hub_cap; worker_caps = c.worker_caps }
step-CapsBelow n h (forgets w) d s c = record {
  hub_cap = c.hub_cap;
  worker_caps = delete-Entries (λ v cap. cap ≤ n) w h.worker_max_in_flight c.worker_caps;
}

set_max_in_flight-calls : (k : ℤ) (h : Hub) → (set_max_in_flight k h).calls ≡ h.calls
unfolding set_max_in_flight
set_max_in_flight-calls k h = ground arith

set_worker_max_in_flight-calls :
    (w : String) (k : ℤ) (h : Hub) → (set_worker_max_in_flight w k h).calls ≡ h.calls
unfolding set_worker_max_in_flight
set_worker_max_in_flight-calls w k h = ground arith

step-AtMost : (n : ℕ) (h : Hub) (call : Call) → 4 ≤ n → WithinCap n h → AtMost n (step h call).calls
unfolding step fail_all_relay_pending relay_lost cleanup_relay_metrics record_relay_timeout
    forget_cap finish_call
step-AtMost n h (sets_max k) d b = rw (set_max_in_flight-calls k h) b.few
step-AtMost n h (sets_worker_max w k) d b = rw (set_worker_max_in_flight-calls w k h) b.few
step-AtMost n h (registers id w now) d b = register_relay_call-AtMost id w now n h d b
step-AtMost n h (finishes ref now) d b =
    Settles-AtMost n h _ (finish_at-Settles ref (get_elem? h.calls ref) now h refl) b.few
step-AtMost n h (fails_all now) d b =
    Settles-AtMost n h _ (finish_calls-Settles (values h.relay_pending) now h) b.few
step-AtMost n h (loses_relay now) d b =
    Settles-AtMost n h _ (finish_calls-Settles (values h.relay_pending) now h) b.few
step-AtMost n h (times_out w) d b = b.few
step-AtMost n h (forgets w) d b = b.few

run-WithinCap :
    (n : ℕ) (calls : List Call) (h : Hub)
    → 4 ≤ n
    → AllSetBelow n calls
    → WithinCap n h
    → WithinCap n (run h calls)
unfolding run
run-WithinCap n [] h d s b = b
run-WithinCap n (c ∷ cs) h d s b = run-WithinCap n cs (step h c) d s.1 (record {
  agrees = step-Agrees h c b.agrees;
  caps = step-CapsBelow n h c d s.0 b.caps;
  few = step-AtMost n h c d b;
})

-- After any history of a new hub in which no call sets a cap above `n`, where `n` is at least the
-- default of 4, every worker that has a name has at most `n` calls over the relay that are not finished.
pub open_of-run_bound :
    (n : ℕ) (calls : List Call) → 4 ≤ n → AllSetBelow n calls → AtMost n (run new_hub calls).calls
unfolding new_hub
open_of-run_bound n calls d s =
    (run-WithinCap n calls new_hub d s (record {
      agrees = new_hub-Agrees;
      caps = record { hub_cap = d; worker_caps = tt };
      few = λ w named. omega arith;
    })).few
