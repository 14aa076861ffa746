-- ===== src/Registry.antt =====
-- internal/registry: the workers that the router knows, and who hears of their changes.
-- Times are nanoseconds on the clock of the calls. The mutex makes each method one step. Durations are
-- natural numbers: a negative one would fail `Validate` as a small one does. A loop over the map of
-- workers follows the order of the association list.
pub mod Entries
pub mod Sweep
pub mod Subscribers
pub mod Emits
mod Examples
use infermesh.Prelude.{
  ℕ, suc, ◌+◌, ◌*◌, String, Bool, true, false, ◌&&◌, Option, none, some, List, [], ◌∷◌, ◌++◌, map,
  length, str_eq, ltb, leb, if◌then◌else◌, Map, lookup, insert, delete, pos,
}
use infermesh.Protocol.{
  WorkerInfo, DiscoveryEvent, added, updated, removed, expired, status_available,
  status_unavailable,
}

pub record Config : Type 0 where
  pub unavailable_ttl : ℕ
  pub remove_ttl : ℕ
  pub check_interval : ℕ

pub data ConfigError : Type 0 where
  unavailable_ttl_short remove_ttl_short check_interval_short : ConfigError

unfoldable pub defaults : Config
defaults = record {
  unavailable_ttl = 60 * 1000000000;
  remove_ttl = 120 * 1000000000;
  check_interval = 5 * 1000000000;
}

unfoldable pub validate : Config → Option ConfigError
validate c =
    if ltb c.unavailable_ttl 1000000000
    then some unavailable_ttl_short
    else if ltb c.remove_ttl c.unavailable_ttl
    then some remove_ttl_short
    else if ltb c.check_interval 500000000
    then some check_interval_short
    else none

pub data EventType : Type 0 where
  register_added registry_updated registry_unavailable registry_removed : EventType

-- `probe` is the zero value of the struct, which `pruneSubs` sends.
pub data Event (F : Type 0) : Type 0 where
  event : EventType → WorkerInfo F → Event F
  probe : Event F

pub record WorkerState (F : Type 0) : Type 0 where
  pub info : WorkerInfo F
  pub last_seen : ℕ
  pub available : Bool

-- A subscriber's channel, and its count in `subFailures` (0 where the map has no entry).
pub record Subscriber (F : Type 0) : Type 0 where
  pub queue : List (Event F)
  pub failures : ℕ

pub record Registry (F : Type 0) : Type 0 where
  pub cfg : Config
  pub workers : Map (WorkerState F)
  pub subs : List (Subscriber F)

abbrev pub sub_buffer : ℕ
sub_buffer = 32

abbrev pub max_sub_failures : ℕ
max_sub_failures = 12

-- What happens to a registry: events of discovery, and the ticks of `sweepLoop`.
pub data Call (F : Type 0) : Type 0 where
  handles : ℕ → DiscoveryEvent F → Call F
  sweeps : ℕ → Call F
  subscribes : Call F

module _ {F : Type 0} where
  -- `New` refuses a config that is not valid.
  unfoldable pub new_registry : Config → Option (Registry F)
  unfolding validate
  new_registry cfg = elim (validate cfg) [
    | none ↦ some (record { cfg = cfg; workers = []; subs = [] })
    | some e ↦ none
  ]

  -- A send that does not block: a full channel drops the event.
  unfoldable pub send : Event F → Subscriber F → Subscriber F
  send e s = if ltb (length s.queue) sub_buffer then record s { queue = s.queue ++ e ∷ [] } else s

  unfoldable pub broadcast : Event F → List (Subscriber F) → List (Subscriber F)
  broadcast e subs = map (send e) subs

  unfoldable pub broadcast_all : List (Event F) → List (Subscriber F) → List (Subscriber F)
  unfolding broadcast
  broadcast_all [] subs = subs
  broadcast_all (e ∷ es) subs = broadcast_all es (broadcast e subs)

  unfoldable pub subscribe : Registry F → Registry F
  subscribe r = record r { subs = r.subs ++ record { queue = []; failures = 0 } ∷ [] }

  -- `EventAdded` and `EventUpdated`.
  announce :
      ℕ
      → WorkerInfo F
      → Option (WorkerState F)
      → Map (WorkerState F)
      → Map (WorkerState F) × List (Event F)
  announce now worker none workers = (
    insert worker.id (record { info = worker; last_seen = now; available = true }) workers,
    event register_added worker ∷ [],
  )
  announce now worker (some state) workers = (
    insert worker.id (record { info = worker; last_seen = now; available = true }) workers,
    event (if str_eq state.info.status status_available then registry_updated else register_added)
          worker
        ∷ [],
  )

  remove :
      WorkerInfo F
      → Option (WorkerState F)
      → Map (WorkerState F)
      → Map (WorkerState F) × List (Event F)
  remove worker none workers = (workers, [])
  remove worker (some state) workers =
      (delete worker.id workers, event registry_removed worker ∷ [])

  abbrev pub mark : WorkerState F → WorkerState F
  mark state = record state {
    available = false;
    info = record state.info { status = status_unavailable };
  }

  expire :
      WorkerInfo F
      → Option (WorkerState F)
      → Map (WorkerState F)
      → Map (WorkerState F) × List (Event F)
  expire worker none workers = (workers, [])
  expire worker (some state) workers =
      if state.available
      then (
        insert worker.id (mark state) workers,
        event registry_unavailable (mark state).info ∷ [],
      )
      else (workers, [])

  -- The map after an event, and what is broadcast.
  unfoldable pub transition :
      ℕ → DiscoveryEvent F → Map (WorkerState F) → Map (WorkerState F) × List (Event F)
  unfolding announce remove expire
  transition now e workers =
      let worker = record e.worker { last_seen = now } in
      let state = lookup worker.id workers in
      elim e.type_ [
        | added ↦ announce now worker state workers
        | updated ↦ announce now worker state workers
        | removed ↦ remove worker state workers
        | expired ↦ expire worker state workers
      ]

  unfoldable pub handle_event : ℕ → DiscoveryEvent F → Registry F → Registry F
  unfolding transition broadcast_all
  handle_event now e r =
      let (workers, events) = transition now e r.workers in
      record r { workers = workers; subs = broadcast_all events r.subs }

  -- `since >= ttl`
  abbrev pub silent_for : ℕ → ℕ → WorkerState F → Bool
  silent_for now ttl state = leb (state.last_seen + ttl) now

  -- What the loop of `checkStale` does with one entry: what stays, and what is broadcast.
  unfoldable pub check_entry : Config → ℕ → WorkerState F → Option (WorkerState F) × List (Event F)
  check_entry cfg now state =
      if silent_for now cfg.remove_ttl state
      then (none, event registry_removed state.info ∷ [])
      else if silent_for now cfg.unavailable_ttl state && state.available
      then (some (mark state), event registry_unavailable (mark state).info ∷ [])
      else (some state, [])

  keep_entry :
      String
      → Option (WorkerState F) × List (Event F)
      → Map (WorkerState F) × List (Event F)
      → Map (WorkerState F) × List (Event F)
  keep_entry id (none, es) (rest, events) = (rest, es ++ events)
  keep_entry id (some state, es) (rest, events) = ((id, state) ∷ rest, es ++ events)

  unfoldable pub sweep : Config → ℕ → Map (WorkerState F) → Map (WorkerState F) × List (Event F)
  unfolding keep_entry check_entry
  sweep cfg now [] = ([], [])
  sweep cfg now ((id, state) ∷ workers) =
      keep_entry id (check_entry cfg now state) (sweep cfg now workers)

  unfoldable pub check_stale : ℕ → Registry F → Registry F
  unfolding sweep broadcast_all
  check_stale now r =
      let (workers, events) = sweep r.cfg now r.workers in
      record r { workers = workers; subs = broadcast_all events r.subs }

  -- The loop of `pruneSubs`.
  unfoldable pub prune_subs_loop : List (Subscriber F) → List (Subscriber F)
  prune_subs_loop [] = []
  prune_subs_loop (s ∷ subs) =
      let rest = prune_subs_loop subs in
      if ltb (length s.queue) sub_buffer
      then record { queue = s.queue ++ probe ∷ []; failures = 0 } ∷ rest
      else if ltb s.failures max_sub_failures
      then record s { failures = suc s.failures } ∷ rest
      else rest

  unfoldable pub prune_subs : Registry F → Registry F
  unfolding prune_subs_loop
  prune_subs r = record r { subs = prune_subs_loop r.subs }

  unfoldable pub get : String → Registry F → Option (WorkerInfo F)
  get id r = elim (lookup id r.workers) [ none ↦ none | some state ↦ some state.info ]

  unfoldable pub list : Map (WorkerState F) → List (WorkerInfo F)
  list [] = []
  list ((id, state) ∷ workers) = state.info ∷ list workers

  unfoldable pub list_available : Map (WorkerState F) → List (WorkerInfo F)
  list_available [] = []
  list_available ((id, state) ∷ workers) =
      let rest = list_available workers in if state.available then state.info ∷ rest else rest

  unfoldable pub step : Registry F → Call F → Registry F
  unfolding handle_event check_stale prune_subs subscribe
  step r (handles now e) = handle_event now e r
  step r (sweeps now) = prune_subs (check_stale now r)
  step r subscribes = subscribe r

  unfoldable pub run : Registry F → List (Call F) → Registry F
  unfolding step
  run r [] = r
  run r (c ∷ cs) = run (step r c) cs
