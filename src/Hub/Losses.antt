-- ===== src/Hub/Losses.antt =====
-- The end of a relay's connection: `relayReaderLoop` and `failAllRelayPending` of
-- pkg/router/ws_relay.go, and the finish of one call.
use mathlib.Core.Option.{none-ne-some, some_inj}
use infermesh.Prelude.{
  ℕ, suc, ◌≡◌, refl, sym, ap, ◌∙◌, String, Bool, true, false, ◌||◌, Option, none, some, List, [],
  ◌∷◌, arith, str_eq, ◌==◌, ==_iff, if◌then◌else◌, Bool-cases, Option-cases, inl, inr, Map, lookup,
  get_elem?, set, get_elem?-set,
}
use infermesh.Hub.{
  RelayCall, Hub, new_hub, finish_open, finish_at, finish_call, finish_calls, values,
  fail_all_relay_pending, cleanup_relay_metrics, relay_lost, relay_in_flight_at, Call, loses_relay,
  step, run,
}
use infermesh.Hub.Relay.{open_of, Agrees}
use infermesh.Hub.Limits.{relay_in_flight_at-open_of}
use infermesh.Hub.Histories.{run-new_hub-Agrees, step-Agrees}

abbrev contains : ℕ → List ℕ → Bool
contains n [] = false
contains n (x ∷ xs) = n == x || contains n xs

values-contains :
    (id : String) (ref : ℕ) (m : Map ℕ) → lookup id m ≡ some ref → contains ref (values m) ≡ true
unfolding lookup values
values-contains id ref [] h = absurd (none-ne-some ref h)
values-contains id ref ((k, n) ∷ m) h = elim (Bool-cases (str_eq k id)) [
  | inl e ↦ ground (arith, some_inj.0 (rw (e, lookup) at h), ==_iff ref n)
  | inr e ↦ ground (arith, values-contains id ref m (rw (e, lookup) at h))
]

differ :
    (cs : List RelayCall) (r ref : ℕ) (c d : RelayCall)
    → get_elem? cs r ≡ some c
    → get_elem? cs ref ≡ some d
    → r ≡ ref
    → c.closed ≡ d.closed
differ cs r ref c d g e same = ap (λ k. k.closed) (some_inj.0 (sym g ∙ ap (get_elem? cs) same ∙ e))

-- A call that is still open after the call at `ref` finished was open before and stands elsewhere.
finish_at-open :
    (ref r : ℕ) (o : Option RelayCall) (now : ℕ) (h : Hub) (c : RelayCall)
    → get_elem? h.calls ref ≡ o
    → get_elem? (finish_at ref o now h).calls r ≡ some c
    → c.closed ≡ false
    → (get_elem? h.calls r ≡ some c) × ((r == ref) ≡ false)
unfolding finish_at finish_open
finish_at-open ref r none now h c e g p = (g, ground (arith, ==_iff r ref))
finish_at-open ref r (some d) now h c e g p = elim (Bool-cases d.closed) [
  | inl t ↦
      let before = rw (t, finish_at) at g in
      (before, ground (arith, differ h.calls r ref c d before e, ==_iff r ref))
  | inr t ↦ elim (Bool-cases (r == ref)) [
    | inl same ↦ absurd (ground (arith, overwritten t same))
    | inr other ↦ (sym (written t ∙ rw other refl) ∙ after t, other)
  ]
]
  where
    after : d.closed ≡ false → get_elem? (set h.calls ref (record d { closed = true })) r ≡ some c
    after t = rw (t, finish_at) at g

    written :
        d.closed ≡ false
        → get_elem? (set h.calls ref (record d { closed = true })) r
          ≡ (if r == ref then some (record d { closed = true }) else get_elem? h.calls r)
    written t = get_elem?-set h.calls ref r (record d { closed = true }) d e

    overwritten : d.closed ≡ false → (r == ref) ≡ true → true ≡ c.closed
    overwritten t same =
        let now_there : get_elem? (set h.calls ref (record d { closed = true })) r
            ≡ some (record d { closed = true }) =
          written t ∙ rw same refl in
        ap (λ k. k.closed) (some_inj.0 (sym now_there ∙ after t))

finish_calls-open :
    (refs : List ℕ) (r : ℕ) (now : ℕ) (h : Hub) (c : RelayCall)
    → get_elem? (finish_calls refs now h).calls r ≡ some c
    → c.closed ≡ false
    → (get_elem? h.calls r ≡ some c) × (contains r refs ≡ false)
unfolding finish_calls finish_call
finish_calls-open [] r now h c g p = (g, refl)
finish_calls-open (ref ∷ refs) r now h c g p =
    let rest = finish_calls-open refs r now (finish_call ref now h) c g p in
    let first = finish_at-open ref r (get_elem? h.calls ref) now h c refl rest.0 p in
    (first.0, rw (first.1, rest.1) refl)

-- Every call is closed once all the pending ones are finished.
finish_calls-closed :
    (now r : ℕ) (h : Hub) (c : RelayCall)
    → Agrees h
    → get_elem? (finish_calls (values h.relay_pending) now h).calls r ≡ some c
    → c.closed ≡ true
finish_calls-closed now r h c a g = elim (Bool-cases c.closed) [
  | inl t ↦ t
  | inr t ↦
      let was = finish_calls-open (values h.relay_pending) r now h c g t in
      absurd
        (ground (arith, was.1, values-contains c.id r h.relay_pending (a.open_pending r c was.0 t)))
]

open_of-closed :
    (w : String) (cs : List RelayCall)
    → ((r : ℕ) (c : RelayCall) → get_elem? cs r ≡ some c → c.closed ≡ true)
    → open_of w cs ≡ 0
open_of-closed w [] f = refl
open_of-closed w (c ∷ cs) f = rw (f 0 c refl) (open_of-closed w cs (λ r d g. f (suc r) d g))

lookup-closed :
    (id : String) (h : Hub)
    → Agrees h
    → ((r : ℕ) (c : RelayCall) → get_elem? h.calls r ≡ some c → c.closed ≡ true)
    → lookup id h.relay_pending ≡ none
lookup-closed id h a f = elim (Option-cases (lookup id h.relay_pending)) [
  | inl n ↦ n
  | inr s ↦ let c = a.pending_open id s.0 s.1 in absurd (ground (arith, f s.0 c.0 c.1, c.3))
]

-- When the relay's connection is lost after any history of a new hub, no call over the relay is left
-- unfinished: no worker that has a name has one in flight, no id is pending, and each call of the hub
-- is closed.
pub relay_lost-run :
    (calls : List Call) (now : ℕ)
    → ((r : ℕ) (c : RelayCall)
        → get_elem? (relay_lost now (run new_hub calls)).calls r ≡ some c
        → c.closed ≡ true)
      × ((id : String) → lookup id (relay_lost now (run new_hub calls)).relay_pending ≡ none)
      × ((w : String)
          → str_eq w "" ≡ false
          → relay_in_flight_at w (relay_lost now (run new_hub calls)) ≡ 0)
unfolding step
relay_lost-run calls now =
    let h = run new_hub calls in
    let a = run-new_hub-Agrees calls in
    let lost : Agrees (relay_lost now h) = step-Agrees h (loses_relay now) a in
    let closed : (r : ℕ) (c : RelayCall)
        → get_elem? (relay_lost now h).calls r ≡ some c
        → c.closed ≡ true =
      λ r c g.
        unfold relay_lost fail_all_relay_pending cleanup_relay_metrics in
        finish_calls-closed now r h c a g in
    (
      closed,
      λ id. lookup-closed id (relay_lost now h) lost closed,
      λ w named.
          relay_in_flight_at-open_of w (relay_lost now h) lost named
          ∙ open_of-closed w (relay_lost now h).calls closed,
    )
