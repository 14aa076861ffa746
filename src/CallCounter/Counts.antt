-- ===== src/CallCounter/Counts.antt =====
-- The map of counts of pkg/router/call_counter.go agrees with its list of events.
use text.Mathlib.TextEquality.{eq_iff}
use infermesh.Prelude.{
  ℕ, zero, suc, ◌+◌, ◌-◌, ◌≡◌, refl, String, some, List, [], ◌∷◌, ◌++◌, arith, str_eq, ltb,
  if◌then◌else◌, Bool-cases, inl, inr, Map, lookup, insert, lookup-insert, lookup-delete, tally,
}
use infermesh.CallCounter.{
  CallEvent, CallCounter, decrement_from, decrement, prune_events, prune, read, record_call,
}

-- How often a model stands in a list of events.
abbrev pub occurrences : String → List CallEvent → ℕ
occurrences model [] = 0
occurrences model (e ∷ es) =
    let rest = occurrences model es in if str_eq e.model model then suc rest else rest

pub record Agrees (counts : Map ℕ) (events : List CallEvent) : Type 0 where
  pub at : (model : String) → lookup model counts ≡ tally (occurrences model events)

lookup-decrement :
    (k m : String) (n : ℕ) (counts : Map ℕ)
    → lookup k counts ≡ some (suc n)
    → lookup m (decrement k counts) ≡ (if str_eq k m then tally n else lookup m counts)
unfolding decrement
lookup-decrement k m zero counts h = rw (h, decrement_from) (lookup-delete k m counts)
lookup-decrement k m (suc n) counts h =
    rw (h, decrement_from) (ground (arith, lookup-insert k m (suc (suc n) - 1) counts))

decrement-Agrees :
    (e : CallEvent) (es : List CallEvent) (counts : Map ℕ)
    → Agrees counts (e ∷ es)
    → Agrees (decrement e.model counts) es
decrement-Agrees e es counts a = record {
  at = λ m.
      rw (lookup-decrement e.model m (occurrences e.model es) counts here)
        (ground (arith, a.at m, eq_iff e.model m));
}
  where
    here : lookup e.model counts ≡ some (suc (occurrences e.model es))
    here = ground (arith, a.at e.model, eq_iff e.model e.model)

prune_events-Agrees :
    (now window : ℕ) (es : List CallEvent) (counts : Map ℕ)
    → Agrees counts es
    → Agrees (prune_events now window es counts).1 (prune_events now window es counts).0
unfolding prune_events
prune_events-Agrees now window [] counts a = a
prune_events-Agrees now window (e ∷ es) counts a = elim (Bool-cases (ltb (e.when + window) now)) [
  | inl old ↦
      rw (old, prune_events)
        (prune_events-Agrees now window es (decrement e.model counts)
          (decrement-Agrees e es counts a))
  | inr young ↦ rw (young, prune_events) a
]

occurrences-append :
    (m : String) (es : List CallEvent) (e : CallEvent)
    → occurrences m (es ++ e ∷ [])
      ≡ (if str_eq e.model m then suc (occurrences m es) else occurrences m es)
occurrences-append m [] e = refl
occurrences-append m (x ∷ es) e = ground (arith, occurrences-append m es e)

read-tally : (n : ℕ) (k : String) (counts : Map ℕ) → lookup k counts ≡ tally n → read k counts ≡ n
unfolding read
read-tally zero k counts h = rw (h, read)
read-tally (suc n) k counts h = rw (h, read)

append-Agrees :
    (e : CallEvent) (es : List CallEvent) (counts : Map ℕ)
    → Agrees counts es
    → Agrees (insert e.model (suc (read e.model counts)) counts) (es ++ e ∷ [])
append-Agrees e es counts a = record {
  at = λ m.
      rw (lookup-insert e.model m (suc (read e.model counts)) counts, occurrences-append m es e)
        (ground (
          arith,
          a.at m,
          read-tally (occurrences e.model es) e.model counts (a.at e.model),
          eq_iff e.model m,
        ));
}

abbrev pub Counted : CallCounter → Type 0
Counted c = Agrees c.counts c.events

pub prune-Counted : (now : ℕ) (c : CallCounter) → Counted c → Counted (prune now c)
unfolding prune
prune-Counted now c a = prune_events-Agrees now c.window c.events c.counts a

pub record_call-Counted :
    (model : String) (now : ℕ) (c : CallCounter) → Counted c → Counted (record_call model now c)
unfolding record_call
record_call-Counted model now c a =
    prune-Counted now _ (append-Agrees (record { model = model; when = now }) c.events c.counts a)
