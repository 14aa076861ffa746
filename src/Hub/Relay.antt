-- ===== src/Hub/Relay.antt =====
-- The calls over the relay of pkg/router/ws_relay.go and ws_stats.go: the counts in flight agree with
-- the calls that are not finished.
use text.Mathlib.TextEquality.{eq_iff}
use mathlib.Core.Option.{none-ne-some, some_inj}
use infermesh.Prelude.{
  ℕ, zero, suc, ◌<◌, ◌≡◌, refl, sym, ap, ◌∙◌, String, true, false, not, ◌&&◌, Option, none, some,
  List, [], ◌∷◌, ◌++◌, arith, str_eq, ◌==◌, ==_iff, if◌then◌else◌, Bool-cases, inl, inr, Map,
  lookup, lookup-insert, lookup-delete, str_eq_sound, str_eq_refl, subst, get_elem?-append_new,
  get_elem?-append_old, tally, Entries, insert-Entries, delete-Entries, length, get_elem?, set,
  get_elem?-set, get_elem?-append,
}
use infermesh.Hub.{
  RelayCall, Hub, count_of, increment, register_new, decrement_found, delete_own, left_flight,
  finish_open, finish_at, finish_call, finish_calls, positive,
}

-- How many calls of a worker are not finished.
abbrev pub open_of : String → List RelayCall → ℕ
open_of w [] = 0
open_of w (c ∷ cs) =
    let rest = open_of w cs in if not c.closed && str_eq c.worker_id w then suc rest else rest

pub open_of-append :
    (w : String) (cs : List RelayCall) (c : RelayCall)
    → open_of w (cs ++ c ∷ [])
      ≡ (if not c.closed && str_eq c.worker_id w then suc (open_of w cs) else open_of w cs)
open_of-append w [] c = refl
open_of-append w (x ∷ cs) c = ground (arith, open_of-append w cs c)

pub open_of-set :
    (w : String) (cs : List RelayCall) (ref : ℕ) (c : RelayCall)
    → get_elem? cs ref ≡ some c
    → c.closed ≡ false
    → open_of w cs ≡ (
        if str_eq c.worker_id w
        then suc (open_of w (set cs ref (record c { closed = true })))
        else open_of w (set cs ref (record c { closed = true })))
open_of-set w [] ref c h o = absurd (none-ne-some c h)
open_of-set w (x ∷ cs) zero c h o = ground (arith, some_inj.0 h)
open_of-set w (x ∷ cs) (suc ref) c h o = ground (arith, open_of-set w cs ref c h o)

open_of-set_self :
    (cs : List RelayCall) (ref : ℕ) (c : RelayCall)
    → get_elem? cs ref ≡ some c
    → c.closed ≡ false
    → open_of c.worker_id cs ≡ suc (open_of c.worker_id (set cs ref (record c { closed = true })))
open_of-set_self cs ref c h o =
    ground (arith, open_of-set c.worker_id cs ref c h o, str_eq_refl c.worker_id)

-- The counts of the hub, its map of pending calls and the calls themselves say the same.
pub record Agrees (h : Hub) : Type 0 where
  pub counted :
      (w : String) → str_eq w "" ≡ false → lookup w h.relay_in_flight ≡ tally (open_of w h.calls)
  pub counts_positive : Entries (λ w n. 0 < n) h.relay_in_flight
  pub pending_open :
      (id : String) (ref : ℕ)
      → lookup id h.relay_pending ≡ some ref
      → (c : RelayCall) × (get_elem? h.calls ref ≡ some c) × (c.id ≡ id) × (c.closed ≡ false)
  pub open_pending :
      (ref : ℕ) (c : RelayCall)
      → get_elem? h.calls ref ≡ some c
      → c.closed ≡ false
      → lookup c.id h.relay_pending ≡ some ref

tally-suc : (n : ℕ) (o : Option ℕ) → o ≡ tally n → some (suc (count_of o)) ≡ tally (suc n)
tally-suc zero o h = rw h refl
tally-suc (suc n) o h = rw h refl

lookup-increment :
    (k w : String) (m : Map ℕ)
    → lookup w (increment k m)
      ≡ (if str_eq k w then some (suc (count_of (lookup k m))) else lookup w m)
unfolding increment
lookup-increment k w m = lookup-insert k w (suc (count_of (lookup k m))) m

lookup-decrement_found :
    (k w : String) (n : ℕ) (m : Map ℕ)
    → lookup k m ≡ tally (suc n)
    → lookup w (decrement_found k (count_of (lookup k m)) m)
      ≡ (if str_eq k w then tally n else lookup w m)
lookup-decrement_found k w zero m h = rw h (lookup-delete k w m)
lookup-decrement_found k w (suc n) m h = rw h (lookup-insert k w (suc n) m)

decrement_found-Entries :
    (k : String) (n : ℕ) (m : Map ℕ)
    → Entries (λ w i. 0 < i) m
    → Entries (λ w i. 0 < i) (decrement_found k n m)
decrement_found-Entries k zero m e = e
decrement_found-Entries k (suc zero) m e = delete-Entries (λ w i. 0 < i) k m e
decrement_found-Entries k (suc (suc n)) m e =
    insert-Entries (λ w i. 0 < i) k (suc n) m (omega arith) e

pub positive-id : (m : Map ℕ) → Entries (λ w i. 0 < i) m → positive m ≡ m
unfolding positive
positive-id [] e = refl
positive-id ((k, n) ∷ m) e = ground (arith, positive-id m e.1)

pub register_new-Agrees :
    (id w : String) (now : ℕ) (o : Option ℕ) (h : Hub)
    → lookup id h.relay_pending ≡ o
    → Agrees h
    → Agrees (register_new id w now o h).1
unfolding register_new
register_new-Agrees id w now (some ref) h e a = a
register_new-Agrees id w now none h e a = record {
  counted = λ v nv.
      rw (lookup-increment w v h.relay_in_flight, open_of-append v h.calls call)
        (ground (
          arith,
          a.counted v nv,
          tally-suc (open_of v h.calls) (lookup v h.relay_in_flight),
          eq_iff w v,
        ));
  counts_positive =
      unfold increment in
      insert-Entries (λ v n. 0 < n) w _ h.relay_in_flight (omega arith) a.counts_positive;
  pending_open = λ i r p. elim (Bool-cases (str_eq id i)) [
    | inl same ↦ (
      call,
      subst (λ k. get_elem? (h.calls ++ call ∷ []) k ≡ some call)
          (some_inj.0
            (sym (lookup-insert id i (length h.calls) h.relay_pending ∙ rw same refl) ∙ p))
          (get_elem?-append_new h.calls call),
      str_eq_sound id i same,
      refl,
    )
    | inr other ↦
        let old =
          a.pending_open i r
            (sym (lookup-insert id i (length h.calls) h.relay_pending ∙ rw other refl) ∙ p) in
        (old.0, get_elem?-append_old h.calls call old.0 r old.1, old.2, old.3)
  ];
  open_pending = λ r c p o. elim (Bool-cases (r == length h.calls)) [
    | inl same ↦ ground (
      arith,
      get_elem?-append h.calls call r,
      ==_iff r (length h.calls),
      lookup-insert id c.id (length h.calls) h.relay_pending,
      str_eq_refl id,
    )
    | inr other ↦ ground (
      arith,
      get_elem?-append h.calls call r,
      lookup-insert id c.id (length h.calls) h.relay_pending,
      eq_iff id c.id,
      a.open_pending r c,
    )
  ];
}
  where
    call : RelayCall
    call = record { id = id; worker_id = w; queued_at = now; closed = false }

lookup-left_flight :
    (k w : String) (n : ℕ) (m : Map ℕ)
    → str_eq w "" ≡ false
    → (str_eq k "" ≡ false → lookup k m ≡ tally (suc n))
    → lookup w (left_flight k m) ≡ (if str_eq k w then tally n else lookup w m)
unfolding left_flight
lookup-left_flight k w n m d h = elim (Bool-cases (str_eq k "")) [
  | inl e ↦ ground (arith, eq_iff k "", eq_iff k w)
  | inr e ↦ rw e (lookup-decrement_found k w n m (h e))
]

left_flight-Entries :
    (k : String) (m : Map ℕ) → Entries (λ w i. 0 < i) m → Entries (λ w i. 0 < i) (left_flight k m)
unfolding left_flight
left_flight-Entries k m e = elim (Bool-cases (str_eq k "")) [
  | inl t ↦ rw t e
  | inr t ↦ rw t (decrement_found-Entries k _ m e)
]

lookup-delete_own :
    (id asked : String) (ref : ℕ) (m : Map ℕ)
    → lookup id m ≡ some ref
    → lookup asked (delete_own id ref (lookup id m) m)
      ≡ (if str_eq id asked then none else lookup asked m)
lookup-delete_own id asked ref m h = rw h (ground (arith, ==_iff ref ref, lookup-delete id asked m))

-- Calls of different ids stand in different places.
apart :
    (c d : RelayCall) (i : String) (ref r : ℕ) (cs : List RelayCall)
    → str_eq c.id i ≡ false
    → get_elem? cs ref ≡ some c
    → get_elem? cs r ≡ some d
    → d.id ≡ i
    → (r == ref) ≡ false
apart c d i ref r cs n g f e = elim (Bool-cases (r == ref)) [
  | inr other ↦ other
  | inl same ↦
      let here : get_elem? cs r ≡ some c =
        subst (λ k. get_elem? cs k ≡ some c) (sym ((==_iff r ref).0 same)) g in
      let one : c.id ≡ i = ap (λ k. k.id) (some_inj.0 (sym here ∙ f)) ∙ e in
      ground (arith, eq_iff c.id i, one)
]

finish_open-Agrees :
    (ref : ℕ) (c : RelayCall) (now : ℕ) (h : Hub)
    → get_elem? h.calls ref ≡ some c
    → c.closed ≡ false
    → Agrees h
    → Agrees (finish_open ref c now h)
unfolding finish_open
finish_open-Agrees ref c now h g o a = record {
  counted = λ v nv.
      lookup-left_flight c.worker_id v
        (open_of c.worker_id (set h.calls ref (record c { closed = true }))) h.relay_in_flight nv
        (λ nc. a.counted c.worker_id nc ∙ ap tally (open_of-set_self h.calls ref c g o))
      ∙ ground (arith, a.counted v nv, open_of-set v h.calls ref c g o, eq_iff c.worker_id v);
  counts_positive = left_flight-Entries c.worker_id h.relay_in_flight a.counts_positive;
  pending_open = λ i r p.
      let was = lookup-delete_own c.id i ref h.relay_pending (a.open_pending ref c g o) in
      let other : str_eq c.id i ≡ false = ground (arith, was, p, eq_iff c.id i) in
      let old = a.pending_open i r (sym (was ∙ rw other refl) ∙ p) in
      (
        old.0,
        get_elem?-set h.calls ref r (record c { closed = true }) c g
            ∙ rw (apart c old.0 i ref r h.calls other g old.1 old.2) old.1,
        old.2,
        old.3,
      );
  open_pending = λ r d p q. elim (Bool-cases (r == ref)) [
    | inl same ↦ ground (arith, get_elem?-set h.calls ref r (record c { closed = true }) c g)
    | inr other ↦ ground (
      arith,
      get_elem?-set h.calls ref r (record c { closed = true }) c g,
      a.open_pending r d,
      lookup-delete_own c.id d.id ref h.relay_pending (a.open_pending ref c g o),
      a.open_pending ref c g o,
      eq_iff c.id d.id,
      ==_iff r ref,
    )
  ];
}

pub finish_at-Agrees :
    (ref : ℕ) (o : Option RelayCall) (now : ℕ) (h : Hub)
    → get_elem? h.calls ref ≡ o
    → Agrees h
    → Agrees (finish_at ref o now h)
unfolding finish_at
finish_at-Agrees ref none now h e a = a
finish_at-Agrees ref (some c) now h e a = elim (Bool-cases c.closed) [
  | inl t ↦ rw t a
  | inr t ↦ rw t (finish_open-Agrees ref c now h e t a)
]

pub finish_calls-Agrees :
    (refs : List ℕ) (now : ℕ) (h : Hub) → Agrees h → Agrees (finish_calls refs now h)
unfolding finish_calls finish_call
finish_calls-Agrees [] now h a = a
finish_calls-Agrees (ref ∷ refs) now h a =
    finish_calls-Agrees refs now (finish_call ref now h)
      (finish_at-Agrees ref (get_elem? h.calls ref) now h refl a)
