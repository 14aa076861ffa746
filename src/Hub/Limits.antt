-- ===== src/Hub/Limits.antt =====
-- The caps on the calls over the relay: pkg/router/ws_hub.go (`maxInFlightFor`) and ws_relay.go
-- (`registerRelayCall`).
use text.Mathlib.TextEquality.{eq_iff}
use mathlib.Core.Option.{none-ne-some, some_inj}
use infermesh.Prelude.{
  not, ◌&&◌, subst, str_eq_refl, ℕ, zero, suc, ◌≡◌, refl, ap, ◌∙◌, String, Bool, true, false,
  Option, none, some, List, [], ◌∷◌, arith, str_eq, leb, if◌then◌else◌, Bool-cases, Option-cases,
  inl, inr, lookup, tally, length, get_elem?,
}
use infermesh.Hub.{
  RelayCall, Hub, new_hub, rate_limited, duplicate, Registered, registered, refused, count_of,
  register_new, register_relay_call, relay_in_flight_at, max_in_flight_for, Call, run,
}
use infermesh.Hub.Relay.{open_of, Agrees}
use infermesh.Hub.Histories.{run-new_hub-Agrees}

-- The answer to a registration, by whether the worker is at its cap and whether the id is open; a call
-- that is taken on stands in the given place.
abbrev pub expected_answer : Bool → Bool → ℕ → Registered
expected_answer true busy place = refused rate_limited
expected_answer false true place = refused duplicate
expected_answer false false place = registered place

abbrev pub present : Option ℕ → Bool
present none = false
present (some n) = true

count_of-tally : (n : ℕ) → count_of (tally n) ≡ n
count_of-tally zero = refl
count_of-tally (suc n) = refl

pub relay_in_flight_at-open_of :
    (w : String) (h : Hub)
    → Agrees h
    → str_eq w "" ≡ false
    → relay_in_flight_at w h ≡ open_of w h.calls
unfolding relay_in_flight_at
relay_in_flight_at-open_of w h a n =
    ap count_of (a.counted w n) ∙ count_of-tally (open_of w h.calls)

register_new-answer :
    (id w : String) (now : ℕ) (o : Option ℕ) (h : Hub)
    → (register_new id w now o h).0 ≡ expected_answer false (present o) (length h.calls)
unfolding register_new
register_new-answer id w now none h = refl
register_new-answer id w now (some ref) h = refl

register_relay_call-answer :
    (id w : String) (now : ℕ) (h : Hub)
    → (register_relay_call id w now h).0
      ≡ expected_answer
          (leb (max_in_flight_for w h) (relay_in_flight_at w h))
          (present (lookup id h.relay_pending))
          (length h.calls)
unfolding register_relay_call
register_relay_call-answer id w now h =
    elim (Bool-cases (leb (max_in_flight_for w h) (relay_in_flight_at w h))) [
      | inl e ↦ rw e refl
      | inr e ↦ rw e (register_new-answer id w now (lookup id h.relay_pending) h)
    ]

-- Whether some call with this id is not finished.
abbrev pub is_open : String → List RelayCall → Bool
is_open id [] = false
is_open id (c ∷ cs) =
    let rest = is_open id cs in if not c.closed && str_eq c.id id then true else rest

is_open-get :
    (cs : List RelayCall) (ref : ℕ) (c : RelayCall)
    → get_elem? cs ref ≡ some c
    → c.closed ≡ false
    → is_open c.id cs ≡ true
is_open-get [] ref c g o = absurd (none-ne-some c g)
is_open-get (x ∷ cs) zero c g o =
    ground
      (arith, ap (λ k. k.id) (some_inj.0 g), ap (λ k. k.closed) (some_inj.0 g), str_eq_refl c.id)
is_open-get (x ∷ cs) (suc ref) c g o = ground (arith, is_open-get cs ref c g o)

is_open-found :
    (id : String) (cs : List RelayCall)
    → is_open id cs ≡ true
    → (ref : ℕ) × (c : RelayCall) × (get_elem? cs ref ≡ some c) × (c.id ≡ id) × (c.closed ≡ false)
is_open-found id [] h = absurd (ground (arith, h))
is_open-found id (c ∷ cs) h = elim (Bool-cases (not c.closed && str_eq c.id id)) [
  | inl e ↦ (0, c, refl, ground (arith, eq_iff c.id id), ground arith)
  | inr e ↦
      let rest = is_open-found id cs (rw (e, is_open) at h) in
      (suc rest.0, rest.1, rest.2, rest.3, rest.4)
]

is_open-Agrees :
    (id : String) (h : Hub) → Agrees h → is_open id h.calls ≡ present (lookup id h.relay_pending)
is_open-Agrees id h a = elim (Bool-cases (is_open id h.calls)) [
  | inl e ↦
      let found = is_open-found id h.calls e in
      rw
        (
          e,
          subst (λ k. lookup k h.relay_pending ≡ some found.0) found.3
              (a.open_pending found.0 found.1 found.2 found.4),
        )
        refl
  | inr e ↦ elim (Option-cases (lookup id h.relay_pending)) [
    | inl n ↦ rw (e, n) refl
    | inr s ↦
        let c = a.pending_open id s.0 s.1 in
        ground (
          arith,
          subst (λ k. is_open k h.calls ≡ true) c.2 (is_open-get h.calls s.0 c.0 c.1 c.3),
          e,
        )
  ]
]

-- After any history of a new hub, a call for a named worker is refused as rate limited exactly when that
-- worker has as many calls that are not finished as its cap, else it is refused as a duplicate exactly
-- when a call with its id is not finished, and else it is taken on as the latest call of the hub.
pub register_relay_call-run :
    (calls : List Call) (id w : String) (now : ℕ)
    → str_eq w "" ≡ false
    → (register_relay_call id w now (run new_hub calls)).0
      ≡ expected_answer
          (leb (max_in_flight_for w (run new_hub calls)) (open_of w (run new_hub calls).calls))
          (is_open id (run new_hub calls).calls)
          (length (run new_hub calls).calls)
register_relay_call-run calls id w now named =
    let agrees = run-new_hub-Agrees calls in
    register_relay_call-answer id w now (run new_hub calls)
    ∙ rw
        (
          relay_in_flight_at-open_of w (run new_hub calls) agrees named,
          is_open-Agrees id (run new_hub calls) agrees,
        )
        refl
