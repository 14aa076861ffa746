-- ===== src/Connections/Calls/Identity.antt =====
-- Who a connection of pkg/router/ws_hub.go speaks for: the collision check of `handleConn`, the
-- heartbeats of `dispatch` and the end of a superseded connection against the registry.
use mathlib.Core.Option.{none-ne-some, some_inj}
use infermesh.Prelude.{
  ℕ, ◌≡◌, refl, sym, ap, ◌∙◌, subst, String, true, false, not, ◌&&◌, Option, none, some, List, [],
  ◌∷◌, arith, str_eq, str_eq_refl, str_eq_sound, ◌==◌, Bool-cases, Option-cases, inl, inr, ◌⊎◌,
  lookup, get_elem?,
}
use infermesh.Protocol.{WorkerInfo, DiscoveryEvent, added, updated, removed}
use infermesh.Registry.{Registry, WorkerState, handle_event, get}
use infermesh.Registry.Entries.{handle_event_lem}
use infermesh.Connections.{
  Net, Semaphore, WsHub, Connection, ConnCall, FirstFrame, unreadable, other_type, bad_payload,
  register, rejected, Checked, checked, heartbeat, bridge, release_held, release_slot, supersede,
  conn_sem_for, take_slot, acquire_conn, enter, admit, set_max_connections, peer_ip, check_peer,
  check_register, seat, handle_conn,
}
use infermesh.Connections.Calls.{
  finish_held, finish_conn_call, finish_conn_calls, pending_refs, shut_down_open, shut_down_held,
  shut_down, set_worker, named, dispatch_held, dispatch,
}

module _ {F : Type 0} where
  abbrev pub ip_of : Option (WorkerInfo F) → Option String
  ip_of none = none
  ip_of (some w) = some w.ip

  release_held-registry :
      (conn : ℕ) (o : Option (Connection F)) (h : WsHub F)
      → (release_held conn o h).registry ≡ h.registry
  unfolding release_held
  release_held-registry conn none h = refl
  release_held-registry conn (some c) h = elim (Option-cases c.slot) [
    | inl e ↦ rw (e, release_held) refl
    | inr e ↦ rw (e.1, release_held) refl
  ]

  supersede-registry : (id : String) (h : WsHub F) → (supersede id h).registry ≡ h.registry
  unfolding supersede release_slot
  supersede-registry id h = elim (Option-cases (lookup id h.conns)) [
    | inl e ↦ rw (e, supersede) refl
    | inr e ↦ rw (e.1, supersede) (release_held-registry e.0 (get_elem? h.connections e.0) h)
  ]

  conn_sem_for-registry : (h : WsHub F) → (conn_sem_for h).1.registry ≡ h.registry
  unfolding conn_sem_for set_max_connections
  conn_sem_for-registry h = elim (Option-cases h.conn_sem) [
    | inl e ↦ rw (e, conn_sem_for) refl
    | inr e ↦ rw (e.1, conn_sem_for) refl
  ]

  take_slot-registry :
      (ref : ℕ) (o : Option Semaphore) (h : WsHub F) → (take_slot ref o h).1.registry ≡ h.registry
  unfolding take_slot
  take_slot-registry ref none h = refl
  take_slot-registry ref (some s) h = ground arith

  acquire_conn-registry : (h : WsHub F) → (acquire_conn h).1.registry ≡ h.registry
  unfolding acquire_conn
  acquire_conn-registry h =
      take_slot-registry (conn_sem_for h).0 (get_elem? (conn_sem_for h).1.sems (conn_sem_for h).0)
        (conn_sem_for h).1
      ∙ conn_sem_for-registry h

  abbrev pub addition : WorkerInfo F → DiscoveryEvent F
  addition worker = record { type_ = added; worker = worker; time = 0 }

  enter-registry :
      (now : ℕ) (worker : WorkerInfo F) (slot : Option ℕ) (h : WsHub F)
      → ((enter now worker slot h).1.registry ≡ h.registry)
        ⊎ ((enter now worker slot h).1.registry ≡ handle_event now (addition worker) h.registry)
  unfolding enter bridge
  enter-registry now worker none h = inl refl
  enter-registry now worker (some slot) h = inr refl

  get-lookup :
      (id : String) (r s : Registry F)
      → lookup id r.workers ≡ lookup id s.workers
      → get id r ≡ get id s
  unfolding get
  get-lookup id r s e = rw (e, get) refl

  -- A worker that is added has the address of the one that was there.
  pub get-handle_event :
      (now : ℕ) (worker : WorkerInfo F) (r : Registry F) (id : String) (ip : String)
      → ip_of (get id r) ≡ some ip
      → (str_eq worker.id id ≡ true → worker.ip ≡ ip)
      → ip_of (get id (handle_event now (addition worker) r)) ≡ some ip
  unfolding get
  get-handle_event now worker r id ip e same = elim (Bool-cases (str_eq worker.id id)) [
    | inl t ↦ rw (handle_event_lem now (addition worker) r id, t, get) (ap some (same t))
    | inr t ↦ rw (handle_event_lem now (addition worker) r id, t, get) e
  ]

  -- An accepted worker with the id has the address.
  abbrev Keeps : String → String → Checked F → Type 0
  Keeps id ip (rejected why) = Unit
  Keeps id ip (checked w) = str_eq w.id id ≡ true → w.ip ≡ ip

  check_peer-Keeps :
      (o : Option (WorkerInfo F)) (peer id ip : String) (worker : WorkerInfo F)
      → (str_eq worker.id id ≡ true → ip_of o ≡ some ip)
      → Keeps id ip (check_peer o peer worker)
  unfolding check_peer
  check_peer-Keeps none peer id ip worker e = λ same. absurd (none-ne-some ip (e same))
  check_peer-Keeps (some known) peer id ip worker e = elim (Bool-cases (str_eq known.ip peer)) [
    | inl t ↦ rw (t, check_peer) (λ same. sym (str_eq_sound known.ip peer t) ∙ some_inj.0 (e same))
    | inr t ↦ rw (t, check_peer) tt
  ]

  check_register-Keeps :
      {Ip : Type 0} (net : Net Ip) (frame : FirstFrame F) (remote_addr id ip : String) (h : WsHub F)
      → ip_of (get id h.registry) ≡ some ip
      → Keeps id ip (check_register net frame remote_addr h)
  unfolding check_register
  check_register-Keeps net unreadable remote_addr id ip h e = tt
  check_register-Keeps net other_type remote_addr id ip h e = tt
  check_register-Keeps net bad_payload remote_addr id ip h e = tt
  check_register-Keeps net (register worker) remote_addr id ip h e =
      elim (Bool-cases (str_eq worker.id "")) [
        | inl t ↦ rw (t, check_register) tt
        | inr t ↦
            elim (Bool-cases (not (str_eq h.api_key "") && not (str_eq worker.api_key h.api_key))) [
              | inl k ↦ rw (t, k, check_register) tt
              | inr k ↦ elim (Option-cases (peer_ip net remote_addr)) [
                | inl n ↦ rw (t, k, n, check_register) tt
                | inr p ↦
                    rw (t, k, p.1, check_register)
                      (check_peer-Keeps (get worker.id h.registry) p.0 id ip worker (λ same.
                        subst (λ i. ip_of (get i h.registry) ≡ some ip)
                          (sym (str_eq_sound worker.id id same)) e))
              ]
            ]
      ]

  admit-Keeps :
      (now : ℕ) (worker : WorkerInfo F) (id ip : String) (h : WsHub F)
      → ip_of (get id h.registry) ≡ some ip
      → (str_eq worker.id id ≡ true → worker.ip ≡ ip)
      → ip_of (get id (admit now worker h).1.registry) ≡ some ip
  unfolding admit
  admit-Keeps now worker id ip h e same =
      elim (enter-registry now worker (acquire_conn h).0 (acquire_conn h).1) [
        | inl q ↦ rw (q, acquire_conn-registry h) e
        | inr q ↦
            rw (q, acquire_conn-registry h) (get-handle_event now worker h.registry id ip e same)
      ]

  seat-Keeps :
      (now : ℕ) (r : Checked F) (id ip : String) (h : WsHub F)
      → ip_of (get id h.registry) ≡ some ip
      → Keeps id ip r
      → ip_of (get id (seat now r h).1.registry) ≡ some ip
  unfolding seat
  seat-Keeps now (rejected why) id ip h e k = e
  seat-Keeps now (checked worker) id ip h e k =
      admit-Keeps now worker id ip (supersede worker.id h) (rw (supersede-registry worker.id h) e) k

  -- A handshake does not change the address of a worker that the registry knows, with that address,
  -- both when the handshake is checked (`h`) and when it is admitted (`later`), whatever other steps
  -- come in between: for every first frame and address of the peer, whether it is accepted, turned
  -- away or supersedes a connection, and for every behaviour of package net. (A worker that the
  -- registry does not know yet at the check is not covered.)
  pub handle_conn-ip_of :
      {Ip : Type 0} (net : Net Ip) (now : ℕ) (frame : FirstFrame F) (remote_addr id ip : String)
      (h later : WsHub F)
      → ip_of (get id h.registry) ≡ some ip
      → ip_of (get id later.registry) ≡ some ip
      → ip_of (get id (handle_conn net now frame remote_addr h later).1.registry) ≡ some ip
  unfolding handle_conn
  handle_conn-ip_of net now frame remote_addr id ip h later e f =
      seat-Keeps now (check_register net frame remote_addr h) id ip later f
        (check_register-Keeps net frame remote_addr id ip h e)

  get-some :
      (id : String) (r : Registry F) (s : WorkerState F)
      → lookup id r.workers ≡ some s
      → get id r ≡ some s.info
  unfolding get
  get-some id r s e = rw (e, get) refl

  get-none : (id : String) (r : Registry F) → lookup id r.workers ≡ none → get id r ≡ none
  unfolding get
  get-none id r e = rw (e, get) refl

  get-updated :
      (now : ℕ) (worker : WorkerInfo F) (r : Registry F)
      → get worker.id (handle_event now (record { type_ = updated; worker = worker; time = 0 }) r)
        ≡ some (record worker { last_seen = now })
  get-updated now worker r =
      get-some worker.id _
        (record { info = record worker { last_seen = now }; last_seen = now; available = true })
        (handle_event_lem now (record { type_ = updated; worker = worker; time = 0 }) r worker.id
          ∙ rw str_eq_refl refl)

  get-removed :
      (now : ℕ) (worker : WorkerInfo F) (r : Registry F)
      → get worker.id (handle_event now (record { type_ = removed; worker = worker; time = 0 }) r)
        ≡ none
  get-removed now worker r = get-none worker.id _ (
      handle_event_lem now (record { type_ = removed; worker = worker; time = 0 }) r worker.id
      ∙ rw str_eq_refl refl)

  -- A heartbeat on any connection makes the registry's entry of the worker that it names, which need not
  -- be the worker of the connection, what the heartbeat says, its address included, but for the
  -- transport and the time; a heartbeat that names no worker is of the worker of the connection.
  dispatch-heartbeat :
      (now conn : ℕ) (worker : WorkerInfo F) (c : Connection F) (h : WsHub F)
      → get_elem? h.connections conn ≡ some c
      → get (named c.id worker).id (dispatch now conn (heartbeat worker) h).registry
        ≡ some (record (named c.id worker) { last_seen = now })
  unfolding dispatch dispatch_held set_worker bridge get
  dispatch-heartbeat now conn worker c h e =
      rw (e, dispatch) (get-updated now (named c.id worker) h.registry)

  finish_held-conns :
      (ref : ℕ) (o : Option ConnCall) (h : WsHub F) → (finish_held ref o h).conns ≡ h.conns
  unfolding finish_held
  finish_held-conns ref none h = refl
  finish_held-conns ref (some call) h = ground arith

  finish_conn_calls-conns :
      (refs : List ℕ) (h : WsHub F) → (finish_conn_calls refs h).conns ≡ h.conns
  unfolding finish_conn_calls finish_conn_call
  finish_conn_calls-conns [] h = refl
  finish_conn_calls-conns (ref ∷ refs) h =
      finish_conn_calls-conns refs (finish_conn_call ref h)
      ∙ finish_held-conns ref (get_elem? h.calls ref) h

  -- What the end of an open connection leaves of the connections, where the entry is another's.
  shut_down_open-other :
      (now conn cur : ℕ) (c : Connection F) (h : WsHub F)
      → lookup c.id h.conns ≡ some cur
      → (cur == conn) ≡ false
      → str_eq c.worker.id "" ≡ false
      → (lookup c.id (shut_down_open now conn c h).conns ≡ some cur)
        × (get c.worker.id (shut_down_open now conn c h).registry ≡ none)
  unfolding shut_down_open bridge
  shut_down_open-other now conn cur c h e other n =
      rw (n, shut_down_open)
        (
          rw (finish_conn_calls-conns (pending_refs c.pending) _) (rw (e, other) e),
          get-removed now c.worker _,
        )

  -- The end of a connection that another has superseded keeps the other connection, and removes its
  -- worker from the registry all the same.
  shut_down-superseded :
      (now conn cur : ℕ) (c : Connection F) (h : WsHub F)
      → get_elem? h.connections conn ≡ some c
      → c.closed ≡ false
      → lookup c.id h.conns ≡ some cur
      → (cur == conn) ≡ false
      → str_eq c.worker.id "" ≡ false
      → (lookup c.id (shut_down now conn h).conns ≡ some cur)
        × (get c.worker.id (shut_down now conn h).registry ≡ none)
  unfolding shut_down shut_down_held
  shut_down-superseded now conn cur c h g o e other n =
      rw (g, o, shut_down) (shut_down_open-other now conn cur c h e other n)
