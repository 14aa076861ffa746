-- ===== src/Registry/Emits.antt =====
-- The events that internal/registry/memory.go broadcasts, against the changes of the map of workers.
use text.Mathlib.TextEquality.{eq_iff}
use infermesh.Prelude.{
  ℕ, ◌≤◌, ◌≡◌, refl, subst, ap, ◌∙◌, String, true, false, Option, none, some, List, [], ◌∷◌, ◌++◌,
  arith, str_eq, str_eq_sound, if◌then◌else◌, Bool-cases, inl, inr, Map, lookup, lookup-Entries,
  Entries, length, length-append, Fresh, lookup-Fresh,
}
use infermesh.Protocol.{WorkerInfo, DiscoveryEvent}
use infermesh.Registry.{
  Config, WorkerState, Registry, Event, event, probe, register_added, registry_updated,
  registry_removed, registry_unavailable, transition, announce, remove, expire, check_entry,
  keep_entry, sweep, handle_event, check_stale, Call, handles, sweeps, subscribes, step,
}
use infermesh.Registry.Entries.{
  IsValid, EntryIsValid, MapIsValid, lookup-transition_old, sweep-Fresh,
}

module _ {F : Type 0} where
  -- What a reader of the available workers sees of an entry.
  abbrev pub visible : Option (WorkerState F) → Option (WorkerInfo F)
  visible none = none
  visible (some s) = if s.available then some s.info else none

  -- What a subscriber learns of the worker `id` from an event, where it knew `old`.
  abbrev pub learn : String → Event F → Option (WorkerInfo F) → Option (WorkerInfo F)
  learn id (event register_added w) old = if str_eq w.id id then some w else old
  learn id (event registry_updated w) old = if str_eq w.id id then some w else old
  learn id (event registry_removed w) old = if str_eq w.id id then none else old
  learn id (event registry_unavailable w) old = if str_eq w.id id then none else old
  learn id probe old = old

  abbrev pub learn_all : String → List (Event F) → Option (WorkerInfo F) → Option (WorkerInfo F)
  learn_all id [] old = old
  learn_all id (e ∷ es) old = learn_all id es (learn id e old)

  learn_all-append :
      (id : String) (es fs : List (Event F)) (old : Option (WorkerInfo F))
      → learn_all id (es ++ fs) old ≡ learn_all id fs (learn_all id es old)
  learn_all-append id [] fs old = refl
  learn_all-append id (e ∷ es) fs old = learn_all-append id es fs (learn id e old)

  transition-learn_old :
      (now : ℕ) (e : DiscoveryEvent F) (ws : Map (WorkerState F)) (old : Option (WorkerState F))
      (id : String)
      → lookup e.worker.id ws ≡ old
      → MapIsValid ws
      → learn_all id (transition now e ws).1 (visible (lookup id ws))
        ≡ visible (lookup id (transition now e ws).0)
  unfolding transition announce remove expire
  transition-learn_old now e ws none id h v =
      ground (arith, lookup-transition_old now e ws none id h, eq_iff e.worker.id id)
  transition-learn_old now e ws (some s) id h v = ground (
    arith,
    lookup-transition_old now e ws (some s) id h,
    (lookup-Entries EntryIsValid e.worker.id s ws v.1 h).keyed,
    eq_iff e.worker.id id,
    eq_iff s.info.id id,
  )

  -- One entry of the sweep, at its own worker and at another.
  check_entry-learn :
      (cfg : Config) (now : ℕ) (id : String) (s : WorkerState F)
      → s.info.id ≡ id
      → learn_all id (check_entry cfg now s).1 (visible (some s))
        ≡ visible (check_entry cfg now s).0
  unfolding check_entry
  check_entry-learn cfg now id s k = ground (arith, eq_iff s.info.id id)

  check_entry-learn_other :
      (cfg : Config) (now : ℕ) (id : String) (s : WorkerState F) (old : Option (WorkerInfo F))
      → str_eq s.info.id id ≡ false
      → learn_all id (check_entry cfg now s).1 old ≡ old
  unfolding check_entry
  check_entry-learn_other cfg now id s old k = ground arith

  keep_entry-events :
      (j : String) (x : Option (WorkerState F) × List (Event F))
      (rest : Map (WorkerState F) × List (Event F))
      → (keep_entry j x rest).1 ≡ x.1 ++ rest.1
  unfolding keep_entry
  keep_entry-events j (none, es) rest = refl
  keep_entry-events j (some t, es) rest = refl

  keep_entry-lookup :
      (j id : String) (x : Option (WorkerState F) × List (Event F))
      (rest : Map (WorkerState F) × List (Event F))
      → lookup id (keep_entry j x rest).0 ≡ (
          if str_eq j id
          then (elim x.0 [ none ↦ lookup id rest.0 | some t ↦ some t ])
          else lookup id rest.0)
  unfolding keep_entry lookup
  keep_entry-lookup j id (none, es) rest = ground arith
  keep_entry-lookup j id (some t, es) rest = refl

  sweep-learn-Fresh :
      (cfg : Config) (now : ℕ) (id : String) (ws : Map (WorkerState F))
      (old : Option (WorkerInfo F))
      → Fresh id ws
      → Entries EntryIsValid ws
      → learn_all id (sweep cfg now ws).1 old ≡ old
  unfolding sweep
  sweep-learn-Fresh cfg now id [] old f v = refl
  sweep-learn-Fresh cfg now id ((j, s) ∷ ws) old f v =
      let es = (check_entry cfg now s).1 in
      let rest = sweep cfg now ws in
      ap (λ fs. learn_all id fs old) (keep_entry-events j (check_entry cfg now s) rest)
      ∙ learn_all-append id es rest.1 old
      ∙ ap (learn_all id rest.1) (check_entry-learn_other cfg now id s old (rw (v.0.keyed) f.0))
      ∙ sweep-learn-Fresh cfg now id ws old f.1 v.1

  kept_visible :
      (x old : Option (WorkerState F))
      → old ≡ none
      → visible x ≡ visible (elim x [ none ↦ old | some t ↦ some t ])
  kept_visible none old h = rw h refl
  kept_visible (some t) old h = refl

  sweep-learn :
      (cfg : Config) (now : ℕ) (id : String) (ws : Map (WorkerState F))
      → MapIsValid ws
      → learn_all id (sweep cfg now ws).1 (visible (lookup id ws))
        ≡ visible (lookup id (sweep cfg now ws).0)
  unfolding sweep lookup
  sweep-learn cfg now id [] v = refl
  sweep-learn cfg now id ((j, s) ∷ ws) v =
      ap (λ fs. learn_all id fs (visible (lookup id ((j, s) ∷ ws))))
        (keep_entry-events j (check_entry cfg now s) (sweep cfg now ws))
      ∙ learn_all-append id (check_entry cfg now s).1 (sweep cfg now ws).1 _
      ∙ elim (Bool-cases (str_eq j id)) [
        | inl same ↦
            rw
              (
                keep_entry-lookup j id (check_entry cfg now s) (sweep cfg now ws),
                same,
                check_entry-learn cfg now id s (v.1.0.keyed ∙ str_eq_sound j id same),
                sweep-learn-Fresh cfg now id ws (visible (check_entry cfg now s).0) (fresh same)
                    v.1.1,
              )
              (kept_visible (check_entry cfg now s).0 _
                (lookup-Fresh id _ (sweep-Fresh cfg now id ws (fresh same))))
        | inr other ↦
            rw
              (
                keep_entry-lookup j id (check_entry cfg now s) (sweep cfg now ws),
                other,
                check_entry-learn_other cfg now id s (visible (lookup id ws))
                    (rw (v.1.0.keyed) other),
              )
              (sweep-learn cfg now id ws (v.0.1, v.1.1))
      ]
    where
      fresh : str_eq j id ≡ true → Fresh id ws
      fresh same = subst (λ k. Fresh k ws) (str_eq_sound j id same) v.0.0

  -- The events that a call broadcasts.
  abbrev pub emitted : Registry F → Call F → List (Event F)
  emitted r (handles now e) = (transition now e r.workers).1
  emitted r (sweeps now) = (sweep r.cfg now r.workers).1
  emitted r subscribes = []

  -- In a valid registry, the events that a call broadcasts tell the whole change of the available
  -- workers: a subscriber
  -- that knew them before and applies these events, in order, knows them after the call.
  pub emitted-visible :
      (r : Registry F) (c : Call F) (id : String)
      → IsValid r
      → learn_all id (emitted r c) (visible (lookup id r.workers))
        ≡ visible (lookup id (step r c).workers)
  unfolding step handle_event check_stale
  emitted-visible r (handles now e) id v =
      transition-learn_old now e r.workers (lookup e.worker.id r.workers) id refl
        (v.distinct, v.entries)
  emitted-visible r (sweeps now) id v = sweep-learn r.cfg now id r.workers (v.distinct, v.entries)
  emitted-visible r subscribes id v = refl

  transition-events :
      (now : ℕ) (e : DiscoveryEvent F) (ws : Map (WorkerState F)) (old : Option (WorkerState F))
      → lookup e.worker.id ws ≡ old
      → length (transition now e ws).1 ≤ 1
  unfolding transition announce remove expire
  transition-events now e ws none h = ground arith
  transition-events now e ws (some s) h = ground arith

  check_entry-events :
      (cfg : Config) (now : ℕ) (s : WorkerState F) → length (check_entry cfg now s).1 ≤ 1
  unfolding check_entry
  check_entry-events cfg now s = ground arith

  sweep-events :
      (cfg : Config) (now : ℕ) (ws : Map (WorkerState F)) → length (sweep cfg now ws).1 ≤ length ws
  unfolding sweep
  sweep-events cfg now [] = omega arith
  sweep-events cfg now ((j, s) ∷ ws) =
      rw
        (
          keep_entry-events j (check_entry cfg now s) (sweep cfg now ws),
          length-append (check_entry cfg now s).1 (sweep cfg now ws).1,
        )
        (omega (arith, check_entry-events cfg now s, sweep-events cfg now ws))

  -- A call broadcasts no more events than there are workers, or one.
  pub emitted-length :
      (r : Registry F) (c : Call F) (n : ℕ)
      → length r.workers ≤ n
      → 1 ≤ n
      → length (emitted r c) ≤ n
  emitted-length r (handles now e) n h k =
      omega (arith, transition-events now e r.workers (lookup e.worker.id r.workers) refl)
  emitted-length r (sweeps now) n h k = omega (arith, sweep-events r.cfg now r.workers)
  emitted-length r subscribes n h k = omega arith
