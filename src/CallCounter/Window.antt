-- ===== src/CallCounter/Window.antt =====
-- The counter of pkg/router/call_counter.go against its purpose: a snapshot counts exactly the calls
-- recorded within the window, whatever happened in between.
use mathlib.Core.List.{append_assoc, append-nil}
use native.Mathlib.Nat.{le_trans}
use infermesh.Prelude.{
  ℕ, ◌+◌, ◌≤◌, ◌≡◌, refl, ap, ◌∙◌, String, Bool, List, [], ◌∷◌, ◌++◌, arith, leb, Bool-cases, inl,
  inr, All, All-map, All-append, filter_by, within_window, OrderedFrom, all_within,
  OrderedFrom-append, within_window-append, Map, lookup, tally,
}
use infermesh.CallCounter.{
  CallEvent, CallCounter, new_call_counter, decrement, prune_events, prune, record_call, snapshot,
  Call, records, snapshots, ticks, step, run,
}
use infermesh.CallCounter.Counts.{occurrences, Counted, prune-Counted, record_call-Counted}

-- A call is in the window of length `w` that ends now.
abbrev pub is_live : ℕ → ℕ → CallEvent → Bool
is_live w now e = within_window CallEvent.when w now e

-- The calls of a history that `Record` was given.
abbrev pub recorded : List Call → List CallEvent
recorded [] = []
recorded (records model now ∷ cs) = record { model = model; when = now } ∷ recorded cs
recorded (snapshots now ∷ cs) = recorded cs
recorded (ticks now ∷ cs) = recorded cs

abbrev pub time : Call → ℕ
time (records model now) = now
time (snapshots now) = now
time (ticks now) = now

-- The calls of a history take place in order of time, from `lo` up to `hi`.
abbrev pub Chronological : ℕ → List Call → ℕ → Type 0
Chronological lo [] hi = lo ≤ hi
Chronological lo (c ∷ cs) hi = (lo ≤ time c) × Chronological (time c) cs hi

-- Pruning the events that were live earlier leaves those that are live now.
prune_events-live :
    (w t now lo : ℕ) (es : List CallEvent) (counts : Map ℕ)
    → OrderedFrom CallEvent.when lo es
    → t ≤ now
    → (prune_events now w (filter_by (is_live w t) es) counts).0 ≡ filter_by (is_live w now) es
unfolding prune_events
prune_events-live w t now lo [] counts s h = refl
prune_events-live w t now lo (e ∷ es) counts s h = elim (Bool-cases (leb now (e.when + w))) [
  | inl live ↦ ground (
    arith,
    all_within CallEvent.when w t e.when es s.1,
    all_within CallEvent.when w now e.when es s.1,
  )
  | inr gone ↦ ground (
    arith,
    prune_events-live w t now e.when es counts s.1,
    prune_events-live w t now e.when es (decrement e.model counts) s.1,
  )
]

-- The counter `c` at time `t`, after the recorded calls `seen`.
record Tracks (w t : ℕ) (seen : List CallEvent) (c : CallCounter) : Type 0 where
  same_window : c.window ≡ w
  ordered : OrderedFrom CallEvent.when 0 seen
  past : All (λ x. x.when ≤ t) seen
  kept : c.events ≡ filter_by (is_live w t) seen
  counted : Counted c

prune-Tracks :
    (w t now : ℕ) (seen : List CallEvent) (c : CallCounter)
    → t ≤ now
    → Tracks w t seen c
    → Tracks w now seen (prune now c)
prune-Tracks w t now seen c h k = record {
  same_window = unfold prune in k.same_window;
  ordered = k.ordered;
  past = All-map (λ x p. le_trans p h) seen k.past;
  kept =
      unfold prune in
      rw (k.kept, k.same_window) (prune_events-live w t now 0 seen c.counts k.ordered h);
  counted = prune-Counted now c k.counted;
}

record_call-Tracks :
    (w t now : ℕ) (model : String) (seen : List CallEvent) (c : CallCounter)
    → t ≤ now
    → Tracks w t seen c
    → Tracks w now (seen ++ record { model = model; when = now } ∷ []) (record_call model now c)
record_call-Tracks w t now model seen c h k = record {
  same_window = unfold record_call in k.same_window;
  ordered = OrderedFrom-append CallEvent.when 0 t seen e k.ordered k.past (omega arith) h;
  past =
      All-append (λ x. x.when ≤ now) seen (e ∷ []) (All-map (λ x p. le_trans p h) seen k.past)
        (omega arith);
  kept =
      unfold record_call in
      rw (within_window-append CallEvent.when w t seen c.events e h k.kept, k.same_window)
        (prune_events-live w t now 0 (seen ++ e ∷ []) _
          (OrderedFrom-append CallEvent.when 0 t seen e k.ordered k.past (omega arith) h) h);
  counted = record_call-Counted model now c k.counted;
}
  where
    e : CallEvent
    e = record { model = model; when = now }

run-Tracks :
    (w t hi : ℕ) (seen : List CallEvent) (cs : List Call) (c : CallCounter)
    → Chronological t cs hi
    → Tracks w t seen c
    → (last : ℕ) × (last ≤ hi) × Tracks w last (seen ++ recorded cs) (run c cs)
unfolding run step snapshot
run-Tracks w t hi seen [] c h k = (t, h, rw append-nil k)
run-Tracks w t hi seen (records m now ∷ cs) c h k =
    let (last, l, r) =
      run-Tracks w now hi (seen ++ record { model = m; when = now } ∷ []) cs (record_call m now c)
        h.1 (record_call-Tracks w t now m seen c h.0 k) in
    (last, l, rw append_assoc at r)
run-Tracks w t hi seen (snapshots now ∷ cs) c h k =
    run-Tracks w now hi seen cs (prune now c) h.1 (prune-Tracks w t now seen c h.0 k)
run-Tracks w t hi seen (ticks now ∷ cs) c h k =
    run-Tracks w now hi seen cs (prune now c) h.1 (prune-Tracks w t now seen c h.0 k)

new-Tracks : (w : ℕ) → Tracks w 0 [] (new_call_counter w)
unfolding new_call_counter lookup
new-Tracks w = record {
  same_window = refl;
  ordered = tt;
  past = tt;
  kept = refl;
  counted = record { at = λ m. refl };
}

-- After any history of calls in order of time, a snapshot has for each model exactly the number of
-- its calls that were recorded within the window before the snapshot, and no entry where there is
-- none, however the snapshots and the pruning in between fell.
pub snapshot_exact :
    (w now : ℕ) (cs : List Call) (model : String)
    → Chronological 0 cs now
    → lookup model (snapshot now (run (new_call_counter w) cs)).1
      ≡ tally (occurrences model (filter_by (is_live w now) (recorded cs)))
unfolding snapshot
snapshot_exact w now cs model h =
    let (last, l, r) = run-Tracks w 0 now [] cs (new_call_counter w) h (new-Tracks w) in
    let q = prune-Tracks w last now (recorded cs) _ l r in
    q.counted.at model ∙ ap (λ es. tally (occurrences model es)) q.kept
