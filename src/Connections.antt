-- ===== src/Connections.antt =====
-- pkg/router/ws_hub.go and ws_conn.go: the WebSocket connections of workers. A `wsConnection`, a
-- `pendingCall` and the semaphore channel are objects that goroutines share: they stand in the stores
-- `connections`, `calls` and `sems`, and a reference is a place there. What a method does under one
-- lock is one step; `handle_conn` is `admit` after `check_register` and `supersede`, and the steps of
-- others may come in between, so that it takes the hub at the check and the hub at the admission. What is read from the socket is an argument. Left out: the sockets, the
-- send queues and the close frame of `enqueueClose`, whose end is the `shut_down` of that connection.
-- `Ip` and the record `Net` stand for Go's package net. Times are those of the calls; the
-- events of `bridge` have no time of their own, as in the source, and carry 0.
pub mod Calls
mod Examples
use infermesh.Prelude.{
  ℕ, zero, suc, ◌+◌, ◌-◌, String, Bool, true, false, not, ◌&&◌, Option, none, some, List, [], ◌∷◌,
  ◌++◌, ltb, leb, ◌==◌, if◌then◌else◌, str_eq, Map, lookup, insert, delete, ℤ, pos, pos_part,
  int_leb, int_ltb, length, get_elem?, set,
}
use infermesh.Protocol.{
  WorkerInfo, Capabilities, DiscoveryEvent, DiscoveryEventType, added, updated, removed, expired,
  status_available,
}
use infermesh.Registry.{Registry, handle_event, get}
use infermesh.Hub.{
  Hub, new_hub, relay_in_flight_at, delete_own, RegisterError, rate_limited, duplicate, Registered,
  registered, refused, max_in_flight_for, set_worker_max_in_flight, forget_cap,
}

abbrev pub default_max_connections : ℕ
default_max_connections = 256

abbrev pub transport_ws : String
transport_ws = "ws"

pub record Net (Ip : Type 0) : Type 0 where
  pub split_host_port : String → Option String
  pub parse_ip : String → Option Ip
  pub is_loopback : Ip → Bool
  pub is_ip4 : Ip → Bool
  pub ip4_loopback : Ip
  pub ip_string : Ip → String

-- A channel of capacity `cap` that holds `used` tokens.
pub record Semaphore : Type 0 where
  pub cap : ℕ
  pub used : ℕ

-- `slot` is the semaphore of a slot that is not released.
pub record Connection (F : Type 0) : Type 0 where
  pub id : String
  pub worker : WorkerInfo F
  pub closed : Bool
  pub slot : Option ℕ
  pub pending : Map ℕ
  pub rejected_429 : ℕ
  pub rejected_504 : ℕ

-- A `pendingCall` of the connection `conn`.
pub record ConnCall : Type 0 where
  pub conn : ℕ
  pub id : String
  pub closed : Bool

pub record WsHub (F : Type 0) : Type 0 where
  pub api_key : String
  pub caps : Hub
  pub registry : Registry F
  pub conn_sem : Option ℕ
  pub sems : List Semaphore
  pub conns : Map ℕ
  pub connections : List (Connection F)
  pub calls : List ConnCall

-- The first frame of a connection.
pub data FirstFrame (F : Type 0) : Type 0 where
  unreadable other_type bad_payload : FirstFrame F
  register : WorkerInfo F → FirstFrame F

pub data Rejection : Type 0 where
  read_failed not_a_register undecodable no_worker_id bad_api_key no_ip4 claimed_by_other :
      Rejection
  at_max_connections : Rejection

pub data Checked (F : Type 0) : Type 0 where
  rejected : Rejection → Checked F
  checked : WorkerInfo F → Checked F

pub data Admitted : Type 0 where
  turned_away : Rejection → Admitted
  admitted : ℕ → Admitted

-- A later frame, decoded: `response` says whether its handler ends the call.
pub data Frame (F : Type 0) : Type 0 where
  heartbeat : WorkerInfo F → Frame F
  capabilities : Capabilities F → Frame F
  ping undecodable_payload unexpected close : Frame F
  response : String → Bool → Frame F
  error : String → Frame F

-- The address that a peer is known by.
host_of : String → Option String → String
host_of remote_addr none = remote_addr
host_of remote_addr (some host) = host

unfoldable pub peer_ip : {Ip : Type 0} → Net Ip → String → Option String
unfolding host_of
peer_ip net remote_addr =
    let host = host_of remote_addr (net.split_host_port remote_addr) in
    let host4 = if str_eq host "localhost" then "127.0.0.1" else host in
    elim (net.parse_ip host4) [
      | none ↦ none
      | some ip ↦
          let routable = if net.is_loopback ip then net.ip4_loopback else ip in
          if net.is_ip4 routable then some (net.ip_string routable) else none
    ]

-- A receive from the channel that does not block.
give_back : ℕ → Option Semaphore → List Semaphore → List Semaphore
give_back ref none sems = sems
give_back ref (some s) sems = set sems ref (record s { used = s.used - 1 })

module _ {F : Type 0} where
  unfoldable pub set_max_connections : ℤ → WsHub F → WsHub F
  set_max_connections n h =
      let cap = if int_leb n (pos 0) then default_max_connections else pos_part n in
      record h {
        conn_sem = some (length h.sems);
        sems = h.sems ++ record { cap = cap; used = 0 } ∷ [];
      }

  -- The hub after, and the semaphore.
  conn_sem_for : WsHub F → ℕ × WsHub F
  unfolding set_max_connections
  conn_sem_for h = elim h.conn_sem [
    | none ↦ (length h.sems, set_max_connections (pos default_max_connections) h)
    | some ref ↦ (ref, h)
  ]

  take_slot : ℕ → Option Semaphore → WsHub F → Option ℕ × WsHub F
  take_slot ref none h = (none, h)
  take_slot ref (some s) h =
      if ltb s.used s.cap
      then (some ref, record h { sems = set h.sems ref (record s { used = suc s.used }) })
      else (none, h)

  -- The select has a default, so it does not wait for a slot.
  unfoldable pub acquire_conn : WsHub F → Option ℕ × WsHub F
  unfolding conn_sem_for take_slot
  acquire_conn h = let (ref, k) = conn_sem_for h in take_slot ref (get_elem? k.sems ref) k

  release_held : ℕ → Option (Connection F) → WsHub F → WsHub F
  unfolding give_back
  release_held conn none h = h
  release_held conn (some c) h = elim c.slot [
    | none ↦ h
    | some ref ↦ record h {
      sems = give_back ref (get_elem? h.sems ref) h.sems;
      connections = set h.connections conn (record c { slot = none });
    }
  ]

  unfoldable pub release_slot : ℕ → WsHub F → WsHub F
  unfolding release_held
  release_slot conn h = release_held conn (get_elem? h.connections conn) h

  unfoldable pub bridge : ℕ → DiscoveryEvent F → WsHub F → WsHub F
  bridge now event h =
      let known = record h { registry = handle_event now event h.registry } in
      elim event.type_ [
        | added ↦ known
        | updated ↦ known
        | removed ↦ record known { caps = forget_cap event.worker.id h.caps }
        | expired ↦ record known { caps = forget_cap event.worker.id h.caps }
      ]

  -- The collision check, and what is taken from the peer's address.
  unfoldable pub check_peer : Option (WorkerInfo F) → String → WorkerInfo F → Checked F
  check_peer none ip worker = checked (record worker {
    ip = ip;
    transport = transport_ws;
    status = if str_eq worker.status "" then status_available else worker.status;
  })
  check_peer (some existing) ip worker =
      if str_eq existing.ip ip
      then checked (record worker {
        ip = ip;
        transport = transport_ws;
        status = if str_eq worker.status "" then status_available else worker.status;
      })
      else rejected claimed_by_other

  -- `handleConn` up to the slot.
  unfoldable pub check_register :
      {Ip : Type 0} → Net Ip → FirstFrame F → String → WsHub F → Checked F
  unfolding peer_ip check_peer
  check_register net unreadable remote_addr h = rejected read_failed
  check_register net other_type remote_addr h = rejected not_a_register
  check_register net bad_payload remote_addr h = rejected undecodable
  check_register net (register worker) remote_addr h =
      if str_eq worker.id ""
      then rejected no_worker_id
      else if not (str_eq h.api_key "") && not (str_eq worker.api_key h.api_key)
      then rejected bad_api_key
      else elim (peer_ip net remote_addr) [
        | none ↦ rejected no_ip4
        | some ip ↦ check_peer (get worker.id h.registry) ip worker
      ]

  unfoldable pub supersede : String → WsHub F → WsHub F
  unfolding release_slot
  supersede id h = elim (lookup id h.conns) [ none ↦ h | some old ↦ release_slot old h ]

  enter : ℕ → WorkerInfo F → Option ℕ → WsHub F → Admitted × WsHub F
  unfolding bridge
  enter now worker none h = (turned_away at_max_connections, h)
  enter now worker (some slot) h = (
    admitted (length h.connections),
    bridge now (record { type_ = added; worker = worker; time = 0 })
        (record h {
          conns = insert worker.id (length h.connections) h.conns;
          connections =
              h.connections
              ++ record {
                id = worker.id;
                worker = worker;
                closed = false;
                slot = some slot;
                pending = [];
                rejected_429 = 0;
                rejected_504 = 0;
              }
                ∷ [];
        }),
  )

  -- `handleConn` from the slot on.
  unfoldable pub admit : ℕ → WorkerInfo F → WsHub F → Admitted × WsHub F
  unfolding acquire_conn enter
  admit now worker h = let (slot, k) = acquire_conn h in enter now worker slot k

  seat : ℕ → Checked F → WsHub F → Admitted × WsHub F
  unfolding supersede admit
  seat now (rejected why) h = (turned_away why, h)
  seat now (checked worker) h = admit now worker (supersede worker.id h)

  -- No lock is held from the collision check to `bridge`: `h` is the hub that is checked, and `later`
  -- the hub that the worker is admitted to. Of what follows the check only `bridge` reads or changes the
  -- registry.
  unfoldable pub handle_conn :
      {Ip : Type 0} → Net Ip → ℕ → FirstFrame F → String → (h later : WsHub F) → Admitted × WsHub F
  unfolding check_register seat
  handle_conn net now frame remote_addr h later =
      seat now (check_register net frame remote_addr h) later
