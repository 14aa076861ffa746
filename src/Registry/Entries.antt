-- ===== src/Registry/Entries.antt =====
-- The map of workers of internal/registry/memory.go: what an event leaves for every worker, and
-- what holds of every entry after any history.
use text.Mathlib.TextEquality.{eq_iff}
use mathlib.Core.Option.{none-ne-some, some_inj}
use infermesh.Prelude.{
  subst, ℕ, ◌≡◌, refl, String, true, false, Option, none, some, List, [], ◌∷◌, arith, str_eq,
  if◌then◌else◌, Option-cases, inl, inr, Map, lookup, insert, lookup-insert, lookup-delete, Fresh,
  Distinct, insert-Distinct, delete-Distinct, Entries, insert-Entries, delete-Entries,
  lookup-Entries,
}
use infermesh.Protocol.{
  WorkerInfo, DiscoveryEvent, DiscoveryEventType, added, updated, removed, expired,
  status_unavailable,
}
use infermesh.Registry.{
  Config, WorkerState, Registry, mark, announce, remove, expire, transition, handle_event,
  check_entry, sweep, check_stale, keep_entry, Call, handles, sweeps, subscribes, step, run,
  new_registry, validate,
}

module _ {F : Type 0} where
  -- What an event of discovery makes of the entry of its worker.
  abbrev pub landed :
      ℕ → DiscoveryEventType → WorkerInfo F → Option (WorkerState F) → Option (WorkerState F)
  landed now added w old =
      some (record { info = record w { last_seen = now }; last_seen = now; available = true })
  landed now updated w old =
      some (record { info = record w { last_seen = now }; last_seen = now; available = true })
  landed now removed w old = none
  landed now expired w none = none
  landed now expired w (some s) = some (if s.available then mark s else s)

  pub lookup-transition_old :
      (now : ℕ) (e : DiscoveryEvent F) (ws : Map (WorkerState F)) (old : Option (WorkerState F))
      (id : String)
      → lookup e.worker.id ws ≡ old
      → lookup id (transition now e ws).0
        ≡ (if str_eq e.worker.id id then landed now e.type_ e.worker old else lookup id ws)
  unfolding transition announce remove expire
  lookup-transition_old now e ws none id h = ground (
    arith,
    lookup-insert e.worker.id id
        (record { info = record e.worker { last_seen = now }; last_seen = now; available = true })
        ws,
    eq_iff e.worker.id id,
  )
  lookup-transition_old now e ws (some s) id h = ground (
    arith,
    lookup-insert e.worker.id id
        (record { info = record e.worker { last_seen = now }; last_seen = now; available = true })
        ws,
    lookup-insert e.worker.id id (mark s) ws,
    lookup-delete e.worker.id id ws,
    eq_iff e.worker.id id,
  )

  -- What an event of discovery leaves in the map for every worker: a worker that is added or updated
  -- is there, available, with what the event says of it and the time of the call; one that is removed
  -- is gone; one that expired is marked unavailable where it was there; every other worker is as it was.
  pub handle_event_lem :
      (now : ℕ) (e : DiscoveryEvent F) (r : Registry F) (id : String)
      → lookup id (handle_event now e r).workers ≡ (
          if str_eq e.worker.id id
          then landed now e.type_ e.worker (lookup e.worker.id r.workers)
          else lookup id r.workers)
  unfolding handle_event
  handle_event_lem now e r id =
      lookup-transition_old now e r.workers (lookup e.worker.id r.workers) id refl

  -- What every entry of the map satisfies: it stands under the id of its worker, the worker's last
  -- sign of life is the entry's, and an entry that is not available says so.
  pub record EntryIsValid (id : String) (s : WorkerState F) : Type 0 where
    pub keyed : s.info.id ≡ id
    pub seen : s.info.last_seen ≡ s.last_seen
    pub marked : s.available ≡ false → s.info.status ≡ status_unavailable

  pub record IsValid (r : Registry F) : Type 0 where
    pub config_valid : validate r.cfg ≡ none
    pub distinct : Distinct r.workers
    pub entries : Entries EntryIsValid r.workers

  new_registry-IsValid : (cfg : Config) (r : Registry F) → new_registry cfg ≡ some r → IsValid r
  unfolding new_registry
  new_registry-IsValid cfg r h = elim (Option-cases (validate cfg)) [
    | inl ok ↦
        subst IsValid (some_inj.0 (rw (ok, new_registry) at h))
          (record { config_valid = ok; distinct = tt; entries = tt })
    | inr (e, bad) ↦ absurd (none-ne-some r (rw (bad, new_registry) at h))
  ]

  fresh_entry :
      (now : ℕ) (w : WorkerInfo F)
      → EntryIsValid w.id
          (record { info = record w { last_seen = now }; last_seen = now; available = true })
  fresh_entry now w = record { keyed = refl; seen = refl; marked = λ h. ground arith }

  mark-EntryIsValid :
      (id : String) (s : WorkerState F) → EntryIsValid id s → EntryIsValid id (mark s)
  mark-EntryIsValid id s v = record { keyed = v.keyed; seen = v.seen; marked = λ h. refl }

  abbrev pub MapIsValid : Map (WorkerState F) → Type 0
  MapIsValid ws = Distinct ws × Entries EntryIsValid ws

  insert-IsValid :
      (id : String) (s : WorkerState F) (ws : Map (WorkerState F))
      → EntryIsValid id s
      → MapIsValid ws
      → MapIsValid (insert id s ws)
  insert-IsValid id s ws e v =
      (insert-Distinct id s ws v.0, insert-Entries EntryIsValid id s ws e v.1)

  transition-IsValid :
      (now : ℕ) (e : DiscoveryEvent F) (ws : Map (WorkerState F)) (old : Option (WorkerState F))
      → lookup e.worker.id ws ≡ old
      → MapIsValid ws
      → MapIsValid (transition now e ws).0
  unfolding transition announce remove expire
  transition-IsValid now e ws none h v =
      ground (arith, insert-IsValid e.worker.id _ ws (fresh_entry now e.worker) v)
  transition-IsValid now e ws (some s) h v = ground (
    arith,
    insert-IsValid e.worker.id _ ws (fresh_entry now e.worker) v,
    delete-Distinct e.worker.id ws v.0,
    delete-Entries EntryIsValid e.worker.id ws v.1,
    insert-IsValid e.worker.id (mark s) ws
        (mark-EntryIsValid e.worker.id s (lookup-Entries EntryIsValid e.worker.id s ws v.1 h)) v,
  )

  check_entry-EntryIsValid :
      (cfg : Config) (now : ℕ) (id : String) (s t : WorkerState F)
      → (check_entry cfg now s).0 ≡ some t
      → EntryIsValid id s
      → EntryIsValid id t
  unfolding check_entry
  check_entry-EntryIsValid cfg now id s t h v = ground (arith, mark-EntryIsValid id s v)

  pub sweep-Fresh :
      (cfg : Config) (now : ℕ) (id : String) (ws : Map (WorkerState F))
      → Fresh id ws
      → Fresh id (sweep cfg now ws).0
  unfolding sweep
  sweep-Fresh cfg now id [] h = tt
  sweep-Fresh cfg now id ((j, s) ∷ ws) h = elim (Option-cases (check_entry cfg now s).0) [
    | inl gone ↦ rw (gone, keep_entry) (sweep-Fresh cfg now id ws h.1)
    | inr (t, kept) ↦ rw (kept, keep_entry) (h.0, sweep-Fresh cfg now id ws h.1)
  ]

  sweep-IsValid :
      (cfg : Config) (now : ℕ) (ws : Map (WorkerState F))
      → MapIsValid ws
      → MapIsValid (sweep cfg now ws).0
  unfolding sweep
  sweep-IsValid cfg now [] v = v
  sweep-IsValid cfg now ((j, s) ∷ ws) v = elim (Option-cases (check_entry cfg now s).0) [
    | inl gone ↦ rw (gone, keep_entry) (sweep-IsValid cfg now ws (v.0.1, v.1.1))
    | inr (t, kept) ↦
        let (d, es) = sweep-IsValid cfg now ws (v.0.1, v.1.1) in
        rw (kept, keep_entry)
          (
            (sweep-Fresh cfg now j ws v.0.0, d),
            (check_entry-EntryIsValid cfg now j s t kept v.1.0, es),
          )
  ]

  pub step-IsValid : (r : Registry F) (c : Call F) → IsValid r → IsValid (step r c)
  unfolding step
  step-IsValid r (handles now e) v =
      let m =
        transition-IsValid now e r.workers (lookup e.worker.id r.workers) refl
          (v.distinct, v.entries) in
      unfold handle_event in record { config_valid = v.config_valid; distinct = m.0; entries = m.1 }
  step-IsValid r (sweeps now) v =
      let m = sweep-IsValid r.cfg now r.workers (v.distinct, v.entries) in
      unfold check_stale in record { config_valid = v.config_valid; distinct = m.0; entries = m.1 }
  step-IsValid r subscribes v = record {
    config_valid = v.config_valid;
    distinct = v.distinct;
    entries = v.entries;
  }

  run-IsValid : (r : Registry F) (cs : List (Call F)) → IsValid r → IsValid (run r cs)
  unfolding run
  run-IsValid r [] v = v
  run-IsValid r (c ∷ cs) v = run-IsValid (step r c) cs (step-IsValid r c v)

  -- A registry that `New` returns stays valid through every history: its durations passed
  -- `Validate`, no worker has two entries, every entry stands under its worker's id with the worker's
  -- last sign of life, and every entry that is not available carries the status "unavailable".
  pub run-new_registry-IsValid :
      (cfg : Config) (r : Registry F) (cs : List (Call F))
      → new_registry cfg ≡ some r
      → IsValid (run r cs)
  run-new_registry-IsValid cfg r cs h = run-IsValid r cs (new_registry-IsValid cfg r h)
