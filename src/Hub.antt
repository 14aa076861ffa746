-- ===== src/Hub.antt =====
-- pkg/router/ws_hub.go, ws_conn.go, ws_stats.go and ws_relay.go: the hub's caps on calls in flight and
-- its calls over the relay. A `pendingCall` is an object that the HTTP handler, the reader loop and the
-- hub share: it stands in the store `calls`, and a reference is its place there. Each method holds the
-- mutex of what it changes, so it is one step; `finish` is one too, for `closeOnce` lets one goroutine
-- through and its parts touch nothing that another step reads in between but under their locks. Counts
-- do not wrap. Times are nanoseconds on the clock of the calls. The channels of a call are left out.
pub mod Relay
pub mod Histories
pub mod Limits
pub mod Bounds
pub mod Losses
mod Examples
use infermesh.Prelude.{
  ℕ, zero, suc, ◌+◌, ◌-◌, String, Bool, true, false, Option, none, some, List, [], ◌∷◌, ◌++◌, ltb,
  leb, ◌==◌, if◌then◌else◌, str_eq, Map, lookup, insert, delete, ℤ, pos, pos_part, int_leb, length,
  get_elem?, set,
}

abbrev pub default_max_in_flight : ℕ
default_max_in_flight = 4

-- `closed` is that `closeOnce` has fired.
pub record RelayCall : Type 0 where
  pub id : String
  pub worker_id : String
  pub queued_at : ℕ
  pub closed : Bool

-- `waits` is what was given to the queue metrics, the latest last.
pub record Hub : Type 0 where
  pub max_in_flight : ℕ
  pub worker_max_in_flight : Map ℕ
  pub calls : List RelayCall
  pub relay_pending : Map ℕ
  pub relay_in_flight : Map ℕ
  pub relay_rejected_429 : Map ℕ
  pub relay_rejected_504 : Map ℕ
  pub waits : List ℕ

pub data RegisterError : Type 0 where
  rate_limited duplicate : RegisterError

pub data Registered : Type 0 where
  registered : ℕ → Registered
  refused : RegisterError → Registered

unfoldable pub new_hub : Hub
new_hub = record {
  max_in_flight = default_max_in_flight;
  worker_max_in_flight = [];
  calls = [];
  relay_pending = [];
  relay_in_flight = [];
  relay_rejected_429 = [];
  relay_rejected_504 = [];
  waits = [];
}

unfoldable pub set_max_in_flight : ℤ → Hub → Hub
set_max_in_flight n h =
    if int_leb n (pos 0)
    then record h { max_in_flight = default_max_in_flight }
    else record h { max_in_flight = pos_part n }

unfoldable pub set_worker_max_in_flight : String → ℤ → Hub → Hub
set_worker_max_in_flight worker_id cap h =
    if int_leb cap (pos 0)
    then record h { worker_max_in_flight = delete worker_id h.worker_max_in_flight }
    else record h { worker_max_in_flight = insert worker_id (pos_part cap) h.worker_max_in_flight }

-- `m[k]` reads 0 for a missing key.
abbrev pub count_of : Option ℕ → ℕ
count_of none = 0
count_of (some n) = n

hub_default : ℕ → ℕ
hub_default n = if n == 0 then default_max_in_flight else n

unfoldable pub max_in_flight_for : String → Hub → ℕ
unfolding hub_default
max_in_flight_for worker_id h = elim (lookup worker_id h.worker_max_in_flight) [
  | none ↦ hub_default h.max_in_flight
  | some cap ↦ if ltb 0 cap then cap else hub_default h.max_in_flight
]

unfoldable pub relay_in_flight_at : String → Hub → ℕ
relay_in_flight_at worker_id h = count_of (lookup worker_id h.relay_in_flight)

-- `m[k]++`
increment : String → Map ℕ → Map ℕ
increment k m = insert k (suc (count_of (lookup k m))) m

pub register_new : String → String → ℕ → Option ℕ → Hub → Registered × Hub
unfolding increment
register_new id worker_id now (some ref) h = (refused duplicate, h)
register_new id worker_id now none h = (
  registered (length h.calls),
  record h {
    relay_in_flight = increment worker_id h.relay_in_flight;
    calls =
        h.calls ++ record { id = id; worker_id = worker_id; queued_at = now; closed = false } ∷ [];
    relay_pending = insert id (length h.calls) h.relay_pending;
  },
)

-- `registerRelayCall` and `registerRelayStream`, which differ in the handler of the call.
unfoldable pub register_relay_call : String → String → ℕ → Hub → Registered × Hub
unfolding register_new increment relay_in_flight_at max_in_flight_for
register_relay_call id worker_id now h =
    if leb (max_in_flight_for worker_id h) (relay_in_flight_at worker_id h)
    then (
      refused rate_limited,
      record h { relay_rejected_429 = increment worker_id h.relay_rejected_429 },
    )
    else register_new id worker_id now (lookup id h.relay_pending) h

abbrev decrement_found : String → ℕ → Map ℕ → Map ℕ
decrement_found k zero m = m
decrement_found k (suc zero) m = delete k m
decrement_found k (suc (suc n)) m = insert k (suc n) m

-- `delete` where the entry is this call's.
abbrev pub delete_own : String → ℕ → Option ℕ → Map ℕ → Map ℕ
delete_own id ref none m = m
delete_own id ref (some cur) m = if cur == ref then delete id m else m

-- A call of no worker leaves the count alone.
left_flight : String → Map ℕ → Map ℕ
left_flight worker_id m =
    if str_eq worker_id "" then m else decrement_found worker_id (count_of (lookup worker_id m)) m

finish_open : ℕ → RelayCall → ℕ → Hub → Hub
unfolding left_flight
finish_open ref c now h = record h {
  calls = set h.calls ref (record c { closed = true });
  relay_pending = delete_own c.id ref (lookup c.id h.relay_pending) h.relay_pending;
  relay_in_flight = left_flight c.worker_id h.relay_in_flight;
  waits = if str_eq c.worker_id "" then h.waits else h.waits ++ (now - c.queued_at) ∷ [];
}

pub finish_at : ℕ → Option RelayCall → ℕ → Hub → Hub
unfolding finish_open
finish_at ref none now h = h
finish_at ref (some c) now h = if c.closed then h else finish_open ref c now h

-- `fail`, `completeCall` and `completeStream` of the call at `ref`, at time `now`.
unfoldable pub finish_call : ℕ → ℕ → Hub → Hub
unfolding finish_at
finish_call ref now h = finish_at ref (get_elem? h.calls ref) now h

unfoldable pub finish_calls : List ℕ → ℕ → Hub → Hub
unfolding finish_call
finish_calls [] now h = h
finish_calls (ref ∷ refs) now h = finish_calls refs now (finish_call ref now h)

values : Map ℕ → List ℕ
values [] = []
values ((id, ref) ∷ m) = ref ∷ values m

-- `failAllRelayPending`, which the end of the reader loop repeats.
unfoldable pub fail_all_relay_pending : ℕ → Hub → Hub
unfolding finish_calls values
fail_all_relay_pending now h = finish_calls (values h.relay_pending) now h

unfoldable pub record_relay_timeout : String → Hub → Hub
unfolding increment
record_relay_timeout worker_id h = record h {
  relay_rejected_504 = increment worker_id h.relay_rejected_504;
}

pub positive : Map ℕ → Map ℕ
positive [] = []
positive ((k, n) ∷ m) = let rest = positive m in if n == 0 then rest else (k, n) ∷ rest

unfoldable pub cleanup_relay_metrics : Hub → Hub
unfolding positive
cleanup_relay_metrics h = record h {
  relay_in_flight = positive h.relay_in_flight;
  relay_rejected_429 = positive h.relay_rejected_429;
  relay_rejected_504 = positive h.relay_rejected_504;
}

-- The end of `relayReaderLoop`.
unfoldable pub relay_lost : ℕ → Hub → Hub
unfolding fail_all_relay_pending cleanup_relay_metrics
relay_lost now h = cleanup_relay_metrics (fail_all_relay_pending now h)

-- `HandleRegistryEvent`
unfoldable pub forget_cap : String → Hub → Hub
forget_cap worker_id h = record h { worker_max_in_flight = delete worker_id h.worker_max_in_flight }

pub data Call : Type 0 where
  sets_max : ℤ → Call
  sets_worker_max : String → ℤ → Call
  registers : String → String → ℕ → Call
  finishes : ℕ → ℕ → Call
  fails_all loses_relay : ℕ → Call
  times_out forgets : String → Call

unfoldable pub step : Hub → Call → Hub
unfolding set_max_in_flight set_worker_max_in_flight register_relay_call finish_call
    fail_all_relay_pending relay_lost record_relay_timeout forget_cap
step h (sets_max n) = set_max_in_flight n h
step h (sets_worker_max w n) = set_worker_max_in_flight w n h
step h (registers id w now) = (register_relay_call id w now h).1
step h (finishes ref now) = finish_call ref now h
step h (fails_all now) = fail_all_relay_pending now h
step h (loses_relay now) = relay_lost now h
step h (times_out w) = record_relay_timeout w h
step h (forgets w) = forget_cap w h

unfoldable pub run : Hub → List Call → Hub
run h [] = h
run h (c ∷ cs) = run (step h c) cs
