-- ===== src/Connections/Calls.antt =====
-- pkg/router/ws_hub.go (`dispatch`, `pendingCall`), ws_conn.go (`shutdown`, `addPending`) and ws_stats.go:
-- what happens on a connection of a worker once it stands in the hub, and the steps of the hub.
pub mod Outlines
pub mod Slots
pub mod Tokens
pub mod Live
pub mod Open
pub mod Identity
use infermesh.Prelude.{
  ℕ, zero, suc, ◌+◌, ◌-◌, String, Bool, true, false, not, ◌&&◌, Option, none, some, List, [], ◌∷◌,
  ◌++◌, ltb, leb, ◌==◌, if◌then◌else◌, str_eq, Map, lookup, insert, delete, ℤ, pos, pos_part,
  int_leb, int_ltb, length, get_elem?, set,
}
use infermesh.Protocol.{
  WorkerInfo, Capabilities, DiscoveryEvent, DiscoveryEventType, added, updated, removed, expired,
  status_available,
}
use infermesh.Registry.{Registry, handle_event, get}
use infermesh.Hub.{
  Hub, new_hub, relay_in_flight_at, delete_own, RegisterError, rate_limited, duplicate, Registered,
  registered, refused, max_in_flight_for, set_worker_max_in_flight, forget_cap,
}
use infermesh.Connections.{
  WsHub, Connection, ConnCall, Net, FirstFrame, Frame, heartbeat, capabilities, ping,
  undecodable_payload, unexpected, close, response, error, transport_ws, bridge, release_slot,
  supersede, admit, set_max_connections, Admitted, turned_away, admitted,
}

pending_refs : Map ℕ → List ℕ
pending_refs [] = []
pending_refs ((id, ref) ∷ m) = ref ∷ pending_refs m

module _ {F : Type 0} where
  -- `delete` where the entry is this call's.
  forget_call : String → ℕ → ℕ → Option (Connection F) → List (Connection F) → List (Connection F)
  forget_call id ref conn none cs = cs
  forget_call id ref conn (some c) cs =
      set cs conn (record c { pending = delete_own id ref (lookup id c.pending) c.pending })

  pub finish_held : ℕ → Option ConnCall → WsHub F → WsHub F
  finish_held ref none h = h
  finish_held ref (some call) h = if call.closed then h else record h {
    calls = set h.calls ref (record call { closed = true });
    connections =
        forget_call call.id ref call.conn (get_elem? h.connections call.conn) h.connections;
  }

  -- `fail`, `completeCall` and `completeStream` of a call of a connection.
  unfoldable pub finish_conn_call : ℕ → WsHub F → WsHub F
  unfolding finish_held forget_call
  finish_conn_call ref h = finish_held ref (get_elem? h.calls ref) h

  unfoldable pub finish_conn_calls : List ℕ → WsHub F → WsHub F
  unfolding finish_conn_call
  finish_conn_calls [] h = h
  finish_conn_calls (ref ∷ refs) h = finish_conn_calls refs (finish_conn_call ref h)

  -- The source takes the locks of the hub and of the calls one after the other; here they are one step.
  shut_down_open : ℕ → ℕ → Connection F → WsHub F → WsHub F
  unfolding bridge pending_refs
  shut_down_open now conn c h =
      let k = finish_conn_calls (pending_refs c.pending) (record h {
        conns = delete_own c.id conn (lookup c.id h.conns) h.conns;
        connections = set h.connections conn (record c { closed = true; pending = [] });
      }) in
      if str_eq c.worker.id ""
      then k
      else bridge now (record { type_ = removed; worker = c.worker; time = 0 }) k

  pub shut_down_held : ℕ → ℕ → Option (Connection F) → WsHub F → WsHub F
  unfolding shut_down_open
  shut_down_held now conn none h = h
  shut_down_held now conn (some c) h = if c.closed then h else shut_down_open now conn c h

  -- `shutdown`
  unfoldable pub shut_down : ℕ → ℕ → WsHub F → WsHub F
  unfolding shut_down_held pending_refs finish_conn_calls
  shut_down now conn h = shut_down_held now conn (get_elem? h.connections conn) h

  add_held : String → ℕ → Option (Connection F) → WsHub F → Registered × WsHub F
  add_held id conn none h = (refused duplicate, h)
  add_held id conn (some c) h = elim (lookup id c.pending) [
    | some ref ↦ (refused duplicate, h)
    | none ↦
        if leb (max_in_flight_for c.id h.caps) (length c.pending)
        then (
          refused rate_limited,
          record h {
            connections = set h.connections conn (record c { rejected_429 = suc c.rejected_429 });
          },
        )
        else (
          registered (length h.calls),
          record h {
            calls = h.calls ++ record { conn = conn; id = id; closed = false } ∷ [];
            connections =
                set h.connections conn
                  (record c { pending = insert id (length h.calls) c.pending });
          },
        )
  ]

  -- `addPending` of a new call, by `registerStream` or `registerCall`.
  unfoldable pub add_pending : String → ℕ → WsHub F → Registered × WsHub F
  unfolding add_held
  add_pending id conn h = add_held id conn (get_elem? h.connections conn) h

  set_worker : WorkerInfo F → ℕ → Connection F → WsHub F → WsHub F
  set_worker worker conn c h = record h {
    connections = set h.connections conn (record c { worker = worker });
  }

  finish_named : Option ℕ → WsHub F → WsHub F
  unfolding finish_conn_call
  finish_named none h = h
  finish_named (some ref) h = finish_conn_call ref h

  sync_cap : String → ℤ → WsHub F → WsHub F
  sync_cap id cap h =
      if int_ltb (pos 0) cap then record h { caps = set_worker_max_in_flight id cap h.caps } else h

  abbrev pub named : String → WorkerInfo F → WorkerInfo F
  named id worker = record worker {
    id = if str_eq worker.id "" then id else worker.id;
    transport = transport_ws;
  }

  dispatch_held : ℕ → ℕ → Frame F → Connection F → WsHub F → WsHub F
  unfolding set_worker bridge finish_named shut_down sync_cap
  dispatch_held now conn (heartbeat worker) c h =
      bridge now (record { type_ = updated; worker = named c.id worker; time = 0 })
        (set_worker (named c.id worker) conn c h)
  dispatch_held now conn (capabilities caps) c h =
      let worker = record c.worker { capabilities = caps; transport = transport_ws } in
      sync_cap c.id caps.concurrency_cap (
        bridge now (record { type_ = updated; worker = worker; time = 0 })
          (set_worker worker conn c h))
  dispatch_held now conn ping c h = h
  dispatch_held now conn undecodable_payload c h = h
  dispatch_held now conn unexpected c h = h
  dispatch_held now conn close c h = shut_down now conn h
  dispatch_held now conn (response id ends) c h =
      if ends then finish_named (lookup id c.pending) h else h
  dispatch_held now conn (error id) c h =
      if str_eq id "" then h else finish_named (lookup id c.pending) h

  unfoldable pub dispatch : ℕ → ℕ → Frame F → WsHub F → WsHub F
  unfolding dispatch_held
  dispatch now conn frame h = elim (get_elem? h.connections conn) [
    | none ↦ h
    | some c ↦ dispatch_held now conn frame c h
  ]

  -- `recordTimeout`
  unfoldable pub record_timeout : String → WsHub F → WsHub F
  record_timeout id h = elim (lookup id h.conns) [
    | none ↦ h
    | some conn ↦ elim (get_elem? h.connections conn) [
      | none ↦ h
      | some c ↦ record h {
        connections = set h.connections conn (record c { rejected_504 = suc c.rejected_504 });
      }
    ]
  ]

  unfoldable pub worker_in_flight : Connection F → ℕ
  worker_in_flight c = length c.pending

  -- `isRateLimited`
  unfoldable pub is_rate_limited : String → WsHub F → Bool
  unfolding worker_in_flight
  is_rate_limited id h = elim (lookup id h.conns) [
    | none ↦ leb (max_in_flight_for id h.caps) (relay_in_flight_at id h.caps)
    | some conn ↦ elim (get_elem? h.connections conn) [
      | none ↦ leb (max_in_flight_for id h.caps) (relay_in_flight_at id h.caps)
      | some c ↦ leb (max_in_flight_for id h.caps) (worker_in_flight c)
    ]
  ]

-- What happens to a hub, in any order.
pub data Step (F : Type 0) : Type 0 where
  sets_max_connections : ℤ → Step F
  supersedes : String → Step F
  admits : ℕ → WorkerInfo F → Step F
  releases : ℕ → Step F
  shuts_down : ℕ → ℕ → Step F
  adds : String → ℕ → Step F
  finishes : ℕ → Step F
  receives : ℕ → ℕ → Frame F → Step F
  times_out : String → Step F

module _ {F : Type 0} where
  unfoldable pub new_ws_hub : String → Registry F → WsHub F
  new_ws_hub api_key registry = record {
    api_key = api_key;
    caps = new_hub;
    registry = registry;
    conn_sem = none;
    sems = [];
    conns = [];
    connections = [];
    calls = [];
  }

  unfoldable pub step : WsHub F → Step F → WsHub F
  unfolding set_max_connections supersede admit release_slot shut_down add_pending finish_conn_call
      dispatch record_timeout
  step h (sets_max_connections n) = set_max_connections n h
  step h (supersedes id) = supersede id h
  step h (admits now worker) = (admit now worker h).1
  step h (releases conn) = release_slot conn h
  step h (shuts_down now conn) = shut_down now conn h
  step h (adds id conn) = (add_pending id conn h).1
  step h (finishes ref) = finish_conn_call ref h
  step h (receives now conn frame) = dispatch now conn frame h
  step h (times_out id) = record_timeout id h

  unfoldable pub run : WsHub F → List (Step F) → WsHub F
  unfolding step
  run h [] = h
  run h (s ∷ ss) = run (step h s) ss
