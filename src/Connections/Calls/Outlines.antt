-- ===== src/Connections/Calls/Outlines.antt =====
-- The operations of pkg/router/ws_hub.go, ws_conn.go and ws_stats.go that leave of each connection its
-- id, its slot and whether it is open.
use infermesh.Prelude.{
  ℕ, ◌≡◌, refl, sym, ap, ◌∙◌, subst, String, Bool, true, false, Option, none, some, List, [], ◌∷◌,
  str_eq, leb, ◌==◌, ==_iff, Bool-cases, Option-cases, inl, inr, ◌⊎◌, lookup, insert, length,
  get_elem?, set, get_elem?-set, ℤ, pos, int_ltb,
}
use infermesh.Protocol.{
  WorkerInfo, DiscoveryEvent, DiscoveryEventType, added, updated, removed, expired,
}
use infermesh.Hub.{max_in_flight_for}
use infermesh.Connections.{
  WsHub, Connection, ConnCall, bridge, Frame, heartbeat, capabilities, ping, undecodable_payload,
  unexpected, close, response, error,
}
use infermesh.Connections.Calls.{
  forget_call, finish_held, finish_conn_call, finish_conn_calls, add_held, add_pending, set_worker,
  finish_named, sync_cap, record_timeout, dispatch_held, dispatch, shut_down,
}

-- What a connection is to the hub.
pub record Outline : Type 0 where
  pub id : String
  pub closed : Bool
  pub slot : Option ℕ

module _ {F : Type 0} where
  get_elem?-set_here :
      (cs : List (Connection F)) (conn i : ℕ) (c d : Connection F)
      → get_elem? cs conn ≡ some c
      → (i == conn) ≡ true
      → get_elem? (set cs conn d) i ≡ some d
  get_elem?-set_here cs conn i c d g same = get_elem?-set cs conn i d c g ∙ rw same refl

  pub get_elem?-set_there :
      (cs : List (Connection F)) (conn i : ℕ) (c d : Connection F)
      → get_elem? cs conn ≡ some c
      → (i == conn) ≡ false
      → get_elem? (set cs conn d) i ≡ get_elem? cs i
  get_elem?-set_there cs conn i c d g other = get_elem?-set cs conn i d c g ∙ rw other refl

  pub found :
      (cs : List (Connection F)) (conn i : ℕ) (c : Connection F)
      → get_elem? cs conn ≡ some c
      → (i == conn) ≡ true
      → get_elem? cs i ≡ some c
  found cs conn i c g same = ap (get_elem? cs) ((==_iff i conn).0 same) ∙ g

  -- A write of a connection with the same look, for any look at connections.
  pub set_look :
      {V : Type 0} (look : Option (Connection F) → V) (cs : List (Connection F)) (conn i : ℕ)
      (c d : Connection F)
      → get_elem? cs conn ≡ some c
      → look (some d) ≡ look (some c)
      → look (get_elem? (set cs conn d) i) ≡ look (get_elem? cs i)
  set_look look cs conn i c d g e = elim (Bool-cases (i == conn)) [
    | inl same ↦
        ap look (get_elem?-set_here cs conn i c d g same)
        ∙ e
        ∙ ap look (sym (found cs conn i c g same))
    | inr other ↦ ap look (get_elem?-set_there cs conn i c d g other)
  ]

  abbrev pub outline : Option (Connection F) → Option Outline
  outline none = none
  outline (some c) = some (record { id = c.id; closed = c.closed; slot = c.slot })

  -- The semaphores, the map of connections and the outlines stay.
  pub record SameOutlines (h k : WsHub F) : Type 0 where
    pub sems_same : k.sems ≡ h.sems
    pub conns_same : k.conns ≡ h.conns
    pub outlines_same :
        (i : ℕ) → outline (get_elem? k.connections i) ≡ outline (get_elem? h.connections i)

  pub same_refl : (h : WsHub F) → SameOutlines h h
  same_refl h = record { sems_same = refl; conns_same = refl; outlines_same = λ i. refl }

  pub same_trans : (h k l : WsHub F) → SameOutlines h k → SameOutlines k l → SameOutlines h l
  same_trans h k l a b = record {
    sems_same = b.sems_same ∙ a.sems_same;
    conns_same = b.conns_same ∙ a.conns_same;
    outlines_same = λ i. b.outlines_same i ∙ a.outlines_same i;
  }

  wrote :
      (h : WsHub F) (conn : ℕ) (c d : Connection F)
      → get_elem? h.connections conn ≡ some c
      → outline (some d) ≡ outline (some c)
      → SameOutlines h (record h { connections = set h.connections conn d })
  wrote h conn c d g e = record {
    sems_same = refl;
    conns_same = refl;
    outlines_same = λ i. set_look outline h.connections conn i c d g e;
  }

  forget_call-outline :
      (i : ℕ) (id : String) (ref conn : ℕ) (o : Option (Connection F)) (cs : List (Connection F))
      → get_elem? cs conn ≡ o
      → outline (get_elem? (forget_call id ref conn o cs) i) ≡ outline (get_elem? cs i)
  unfolding forget_call
  forget_call-outline i id ref conn none cs e = refl
  forget_call-outline i id ref conn (some c) cs e = set_look outline cs conn i c _ e refl

  pub finish_held-SameOutlines :
      (ref : ℕ) (o : Option ConnCall) (h : WsHub F) → SameOutlines h (finish_held ref o h)
  unfolding finish_held
  finish_held-SameOutlines ref none h = same_refl h
  finish_held-SameOutlines ref (some call) h = elim (Bool-cases call.closed) [
    | inl t ↦ rw t (same_refl h)
    | inr t ↦ rw t (record {
      sems_same = refl;
      conns_same = refl;
      outlines_same = λ i.
          forget_call-outline i call.id ref call.conn (get_elem? h.connections call.conn)
            h.connections refl;
    })
  ]

  pub finish_conn_calls-SameOutlines :
      (refs : List ℕ) (h : WsHub F) → SameOutlines h (finish_conn_calls refs h)
  unfolding finish_conn_calls finish_conn_call
  finish_conn_calls-SameOutlines [] h = same_refl h
  finish_conn_calls-SameOutlines (ref ∷ refs) h =
      same_trans h (finish_conn_call ref h) _
        (finish_held-SameOutlines ref (get_elem? h.calls ref) h)
        (finish_conn_calls-SameOutlines refs (finish_conn_call ref h))

  pub bridge-SameOutlines :
      (now : ℕ) (e : DiscoveryEvent F) (h : WsHub F) → SameOutlines h (bridge now e h)
  unfolding bridge
  bridge-SameOutlines now e h = go e.type_
    where
      go : (t : DiscoveryEventType) → SameOutlines h (bridge now (record e { type_ = t }) h)
      go added = record { sems_same = refl; conns_same = refl; outlines_same = λ i. refl }
      go updated = record { sems_same = refl; conns_same = refl; outlines_same = λ i. refl }
      go removed = record { sems_same = refl; conns_same = refl; outlines_same = λ i. refl }
      go expired = record { sems_same = refl; conns_same = refl; outlines_same = λ i. refl }

  pub add_pending-SameOutlines :
      (id : String) (conn : ℕ) (h : WsHub F) → SameOutlines h (add_pending id conn h).1
  unfolding add_pending add_held
  add_pending-SameOutlines id conn h = go (get_elem? h.connections conn) refl
    where
      go :
          (o : Option (Connection F))
          → get_elem? h.connections conn ≡ o
          → SameOutlines h (add_held id conn o h).1
      go none e = same_refl h
      go (some c) e = elim (Option-cases (lookup id c.pending)) [
        | inr taken ↦ rw (taken.1, add_held) (same_refl h)
        | inl free ↦ elim (Bool-cases (leb (max_in_flight_for c.id h.caps) (length c.pending))) [
          | inl full ↦ rw (free, full, add_held) (wrote h conn c _ e refl)
          | inr room ↦
              rw (free, room, add_held)
                (record {
                  sems_same = refl;
                  conns_same = refl;
                  outlines_same =
                      (wrote h conn c (record c { pending = insert id (length h.calls) c.pending })
                        e refl).outlines_same;
                })
        ]
      ]

  finish_named-SameOutlines : (o : Option ℕ) (h : WsHub F) → SameOutlines h (finish_named o h)
  unfolding finish_named finish_conn_call
  finish_named-SameOutlines none h = same_refl h
  finish_named-SameOutlines (some ref) h = finish_held-SameOutlines ref (get_elem? h.calls ref) h

  announced-SameOutlines :
      (now conn : ℕ) (worker : WorkerInfo F) (c : Connection F) (h : WsHub F)
      → get_elem? h.connections conn ≡ some c
      → SameOutlines h (
          bridge now
            (record { type_ = updated; worker = worker; time = 0 })
            (set_worker worker conn c h))
  unfolding set_worker
  announced-SameOutlines now conn worker c h e =
      same_trans h
        (record h { connections = set h.connections conn (record c { worker = worker }) }) _
        (wrote h conn c (record c { worker = worker }) e refl)
        (bridge-SameOutlines now (record { type_ = updated; worker = worker; time = 0 })
          (record h { connections = set h.connections conn (record c { worker = worker }) }))

  sync_cap-SameOutlines : (id : String) (cap : ℤ) (h : WsHub F) → SameOutlines h (sync_cap id cap h)
  unfolding sync_cap
  sync_cap-SameOutlines id cap h = elim (Bool-cases (int_ltb (pos 0) cap)) [
    | inl t ↦ rw t (record { sems_same = refl; conns_same = refl; outlines_same = λ i. refl })
    | inr t ↦ rw t (same_refl h)
  ]

  pub record_timeout-SameOutlines :
      (id : String) (h : WsHub F) → SameOutlines h (record_timeout id h)
  unfolding record_timeout
  record_timeout-SameOutlines id h = elim (Option-cases (lookup id h.conns)) [
    | inl e ↦ rw (e, record_timeout) (same_refl h)
    | inr e ↦ elim (Option-cases (get_elem? h.connections e.0)) [
      | inl n ↦ rw (e.1, n, record_timeout) (same_refl h)
      | inr c ↦ rw (e.1, c.1, record_timeout) (wrote h e.0 c.0 _ c.1 refl)
    ]
  ]

  -- A frame ends the connection, or leaves the outlines.
  dispatch_held-outcome :
      (now conn : ℕ) (frame : Frame F) (c : Connection F) (h : WsHub F)
      → get_elem? h.connections conn ≡ some c
      → (dispatch_held now conn frame c h ≡ shut_down now conn h)
        ⊎ SameOutlines h (dispatch_held now conn frame c h)
  unfolding dispatch_held
  dispatch_held-outcome now conn (heartbeat worker) c h e =
      inr (announced-SameOutlines now conn _ c h e)
  dispatch_held-outcome now conn (capabilities caps) c h e = inr (
      same_trans h _ _ (announced-SameOutlines now conn _ c h e)
        (sync_cap-SameOutlines c.id caps.concurrency_cap _))
  dispatch_held-outcome now conn ping c h e = inr (same_refl h)
  dispatch_held-outcome now conn undecodable_payload c h e = inr (same_refl h)
  dispatch_held-outcome now conn unexpected c h e = inr (same_refl h)
  dispatch_held-outcome now conn close c h e = inl refl
  dispatch_held-outcome now conn (response id true) c h e =
      inr (finish_named-SameOutlines (lookup id c.pending) h)
  dispatch_held-outcome now conn (response id false) c h e = inr (same_refl h)
  dispatch_held-outcome now conn (error id) c h e = inr (elim (Bool-cases (str_eq id "")) [
    | inl t ↦ rw t (same_refl h)
    | inr t ↦ rw t (finish_named-SameOutlines (lookup id c.pending) h)
  ])

  dispatch-found :
      (now conn : ℕ) (frame : Frame F) (c : Connection F) (h : WsHub F)
      → get_elem? h.connections conn ≡ some c
      → dispatch now conn frame h ≡ dispatch_held now conn frame c h
  unfolding dispatch
  dispatch-found now conn frame c h e = rw (e, dispatch) refl

  dispatch-missing :
      (now conn : ℕ) (frame : Frame F) (h : WsHub F)
      → get_elem? h.connections conn ≡ none
      → dispatch now conn frame h ≡ h
  unfolding dispatch
  dispatch-missing now conn frame h e = rw (e, dispatch) refl

  pub dispatch-outcome :
      (now conn : ℕ) (frame : Frame F) (h : WsHub F)
      → (dispatch now conn frame h ≡ shut_down now conn h)
        ⊎ SameOutlines h (dispatch now conn frame h)
  dispatch-outcome now conn frame h = elim (Option-cases (get_elem? h.connections conn)) [
    | inl e ↦
        inr
          (subst (λ k. SameOutlines h k) (sym (dispatch-missing now conn frame h e)) (same_refl h))
    | inr e ↦
        subst (λ k. (k ≡ shut_down now conn h) ⊎ SameOutlines h k)
          (sym (dispatch-found now conn frame e.0 h e.1))
          (dispatch_held-outcome now conn frame e.0 h e.1)
  ]
