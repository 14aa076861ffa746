-- ===== src/Registry/Sweep.antt =====
-- The sweep of stale workers, `checkStale` of internal/registry/memory.go.
use infermesh.Prelude.{
  ℕ, ◌+◌, ◌≡◌, refl, subst, String, Option, none, some, List, [], ◌∷◌, arith, str_eq, str_eq_sound,
  if◌then◌else◌, ltb, leb, ◌&&◌, Bool-cases, Option-cases, inl, inr, Map, lookup, Fresh, Distinct,
  lookup-Fresh,
}
use infermesh.Protocol.{WorkerInfo}
use infermesh.Registry.{
  Config, WorkerState, Registry, mark, validate, check_entry, keep_entry, sweep, check_stale,
  list_available,
}
use infermesh.Registry.Entries.{IsValid, sweep-Fresh}

module _ {F : Type 0} where
  -- What a tick at time `now` leaves of an entry.
  abbrev pub swept : Config → ℕ → Option (WorkerState F) → Option (WorkerState F)
  swept cfg now none = none
  swept cfg now (some s) =
      if leb (s.last_seen + cfg.remove_ttl) now
      then none
      else if leb (s.last_seen + cfg.unavailable_ttl) now && s.available
      then some (mark s)
      else some s

  check_entry-swept :
      (cfg : Config) (now : ℕ) (s : WorkerState F)
      → (check_entry cfg now s).0 ≡ swept cfg now (some s)
  unfolding check_entry
  check_entry-swept cfg now s = ground arith

  lookup-sweep :
      (cfg : Config) (now : ℕ) (id : String) (ws : Map (WorkerState F))
      → Distinct ws
      → lookup id (sweep cfg now ws).0 ≡ swept cfg now (lookup id ws)
  unfolding sweep lookup
  lookup-sweep cfg now id [] d = refl
  lookup-sweep cfg now id ((j, s) ∷ ws) d = elim (Bool-cases (str_eq j id)) [
    | inl same ↦ elim (Option-cases (check_entry cfg now s).0) [
      | inl gone ↦
          rw (gone, keep_entry, same, ← check_entry-swept cfg now s, gone)
            (lookup-Fresh id _
              (sweep-Fresh cfg now id ws (subst (λ k. Fresh k ws) (str_eq_sound j id same) d.0)))
      | inr (t, kept) ↦ rw (kept, keep_entry, same, ← check_entry-swept cfg now s, kept) refl
    ]
    | inr other ↦ elim (Option-cases (check_entry cfg now s).0) [
      | inl gone ↦ rw (gone, keep_entry, other) (lookup-sweep cfg now id ws d.1)
      | inr (t, kept) ↦ rw (kept, keep_entry, other) (lookup-sweep cfg now id ws d.1)
    ]
  ]

  -- A tick in a valid registry removes exactly the workers that have been silent for the removal
  -- time, marks unavailable exactly those other available ones that have been silent for the
  -- unavailability time, and leaves the rest as they were.
  check_stale_lem :
      (now : ℕ) (r : Registry F) (id : String)
      → IsValid r
      → lookup id (check_stale now r).workers ≡ swept r.cfg now (lookup id r.workers)
  unfolding check_stale
  check_stale_lem now r id v = lookup-sweep r.cfg now id r.workers v.distinct

  -- The available workers that have been heard of within the unavailability time.
  abbrev pub recent_workers : Config → ℕ → Map (WorkerState F) → List (WorkerInfo F)
  recent_workers cfg now [] = []
  recent_workers cfg now ((id, s) ∷ ws) =
      let rest = recent_workers cfg now ws in
      if s.available && ltb now (s.last_seen + cfg.unavailable_ttl) then s.info ∷ rest else rest

  sweep-recent :
      (cfg : Config) (now : ℕ) (ws : Map (WorkerState F))
      → validate cfg ≡ none
      → list_available (sweep cfg now ws).0 ≡ recent_workers cfg now ws
  unfolding sweep list_available validate check_entry
  sweep-recent cfg now [] v = refl
  sweep-recent cfg now ((j, s) ∷ ws) v = ground (arith, sweep-recent cfg now ws v)

  -- After a tick a valid registry lists as available exactly the workers that were available and have
  -- been heard of within the unavailability time.
  list_available-check_stale :
      (now : ℕ) (r : Registry F)
      → IsValid r
      → list_available (check_stale now r).workers ≡ recent_workers r.cfg now r.workers
  unfolding check_stale
  list_available-check_stale now r v = sweep-recent r.cfg now r.workers v.config_valid
