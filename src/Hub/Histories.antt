-- ===== src/Hub/Histories.antt =====
-- The histories of the relay of pkg/router/ws_relay.go and ws_stats.go.
use mathlib.Core.Option.{none-ne-some}
use infermesh.Prelude.{
  ℕ, ◌≡◌, refl, sym, String, some, List, [], ◌∷◌, leb, Bool-cases, inl, inr, lookup, subst,
  get_elem?, pos, int_leb,
}
use infermesh.Hub.{
  Hub, new_hub, register_relay_call, relay_in_flight_at, max_in_flight_for, finish_call,
  finish_calls, values, fail_all_relay_pending, cleanup_relay_metrics, relay_lost,
  set_max_in_flight, set_worker_max_in_flight, record_relay_timeout, forget_cap, Call, sets_max,
  sets_worker_max, registers, finishes, fails_all, loses_relay, times_out, forgets, step, run,
}
use infermesh.Hub.Relay.{
  Agrees, register_new-Agrees, finish_at-Agrees, finish_calls-Agrees, positive-id,
}

-- What `Agrees` reads.
same_calls :
    (h k : Hub)
    → h.calls ≡ k.calls
    → h.relay_pending ≡ k.relay_pending
    → h.relay_in_flight ≡ k.relay_in_flight
    → Agrees h
    → Agrees k
same_calls h k c p f a = record {
  counted = λ w n. rw (sym c, sym f) (a.counted w n);
  counts_positive = rw (sym f) a.counts_positive;
  pending_open = λ id ref l.
      rw (sym c) (a.pending_open id ref (subst (λ m. lookup id m ≡ some ref) (sym p) l));
  open_pending = λ ref d g o.
      rw (sym p) (a.open_pending ref d (subst (λ m. get_elem? m ref ≡ some d) (sym c) g) o);
}

register_relay_call-Agrees :
    (id w : String) (now : ℕ) (h : Hub) → Agrees h → Agrees (register_relay_call id w now h).1
unfolding register_relay_call
register_relay_call-Agrees id w now h a =
    elim (Bool-cases (leb (max_in_flight_for w h) (relay_in_flight_at w h))) [
      | inl e ↦ rw e (same_calls h _ refl refl refl a)
      | inr e ↦ rw e (register_new-Agrees id w now (lookup id h.relay_pending) h refl a)
    ]

pub step-Agrees : (h : Hub) (call : Call) → Agrees h → Agrees (step h call)
unfolding step set_max_in_flight set_worker_max_in_flight finish_call fail_all_relay_pending
    relay_lost cleanup_relay_metrics record_relay_timeout forget_cap
step-Agrees h (sets_max n) a = elim (Bool-cases (int_leb n (pos 0))) [
  | inl e ↦ rw e (same_calls h _ refl refl refl a)
  | inr e ↦ rw e (same_calls h _ refl refl refl a)
]
step-Agrees h (sets_worker_max w n) a = elim (Bool-cases (int_leb n (pos 0))) [
  | inl e ↦ rw e (same_calls h _ refl refl refl a)
  | inr e ↦ rw e (same_calls h _ refl refl refl a)
]
step-Agrees h (registers id w now) a = register_relay_call-Agrees id w now h a
step-Agrees h (finishes ref now) a = finish_at-Agrees ref (get_elem? h.calls ref) now h refl a
step-Agrees h (fails_all now) a = finish_calls-Agrees (values h.relay_pending) now h a
step-Agrees h (loses_relay now) a =
    let done = finish_calls-Agrees (values h.relay_pending) now h a in
    same_calls (finish_calls (values h.relay_pending) now h) _ refl refl
      (sym (
        positive-id (finish_calls (values h.relay_pending) now h).relay_in_flight
          done.counts_positive))
      done
step-Agrees h (times_out w) a = same_calls h _ refl refl refl a
step-Agrees h (forgets w) a = same_calls h _ refl refl refl a

run-Agrees : (cs : List Call) (h : Hub) → Agrees h → Agrees (run h cs)
unfolding run
run-Agrees [] h a = a
run-Agrees (c ∷ cs) h a = run-Agrees cs (step h c) (step-Agrees h c a)

pub new_hub-Agrees : Agrees new_hub
unfolding new_hub lookup
new_hub-Agrees = record {
  counted = λ w n. refl;
  counts_positive = tt;
  pending_open = λ id ref p. absurd (none-ne-some ref p);
  open_pending = λ ref c p o. absurd (none-ne-some c p);
}

-- After any history of a new hub: the count in flight of a worker with a name that is not empty is
-- the number of its calls over the relay that are not finished, and no entry of the counts is zero;
-- every entry of the map of pending calls is a call of that id that is not finished, and every call
-- that is not finished stands in that map under its id.
pub run-new_hub-Agrees : (calls : List Call) → Agrees (run new_hub calls)
run-new_hub-Agrees calls = run-Agrees calls new_hub new_hub-Agrees
