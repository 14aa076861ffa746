-- ===== src/Connections/Calls/Open.antt =====
-- The map of connections of pkg/router/ws_hub.go over the histories of the hub.
use mathlib.Core.Option.{none-ne-some}
use infermesh.Prelude.{
  ℕ, ◌≡◌, refl, String, false, Option, none, some, List, [], ◌∷◌, ltb, Bool-cases, Option-cases,
  inl, inr, lookup, get_elem?, ℤ,
}
use infermesh.Protocol.{WorkerInfo}
use infermesh.Registry.{Registry}
use infermesh.Connections.{
  Semaphore, WsHub, Connection, bridge, release_held, release_slot, supersede, conn_sem_for,
  take_slot, acquire_conn, enter, admit, set_max_connections,
}
use infermesh.Connections.Calls.{
  finish_conn_call, shut_down, Step, sets_max_connections, supersedes, admits, releases, shuts_down,
  adds, finishes, receives, times_out, new_ws_hub, step, run,
}
use infermesh.Connections.Calls.Outlines.{
  set_look, finish_held-SameOutlines, add_pending-SameOutlines, record_timeout-SameOutlines,
  dispatch-outcome,
}
use infermesh.Connections.Calls.Live.{
  open_id, IsLive, SameOpen, SameOpen-IsLive, SameOutlines-IsLive, shut_down_held-IsLive,
  placed-IsLive,
}

module _ {F : Type 0} where
  open_refl : (h : WsHub F) → SameOpen h h
  open_refl h = record { conns_same = refl; open_same = λ i. refl }

  release_held-SameOpen :
      (conn : ℕ) (o : Option (Connection F)) (h : WsHub F)
      → get_elem? h.connections conn ≡ o
      → SameOpen h (release_held conn o h)
  unfolding release_held
  release_held-SameOpen conn none h e = open_refl h
  release_held-SameOpen conn (some c) h e = elim (Option-cases c.slot) [
    | inl n ↦ rw (n, release_held) (open_refl h)
    | inr held ↦
        rw (held.1, release_held)
          (record {
            conns_same = refl;
            open_same =
                λ i. set_look open_id h.connections conn i c (record c { slot = none }) e refl;
          })
  ]

  release_slot-SameOpen : (conn : ℕ) (h : WsHub F) → SameOpen h (release_slot conn h)
  unfolding release_slot
  release_slot-SameOpen conn h = release_held-SameOpen conn (get_elem? h.connections conn) h refl

  supersede-SameOpen : (id : String) (h : WsHub F) → SameOpen h (supersede id h)
  unfolding supersede
  supersede-SameOpen id h = elim (Option-cases (lookup id h.conns)) [
    | inl e ↦ rw (e, supersede) (open_refl h)
    | inr e ↦ rw (e.1, supersede) (release_slot-SameOpen e.0 h)
  ]

  set_max_connections-SameOpen : (n : ℤ) (h : WsHub F) → SameOpen h (set_max_connections n h)
  unfolding set_max_connections
  set_max_connections-SameOpen n h = record { conns_same = refl; open_same = λ i. refl }

  conn_sem_for-SameOpen : (h : WsHub F) → SameOpen h (conn_sem_for h).1
  unfolding conn_sem_for set_max_connections
  conn_sem_for-SameOpen h = elim (Option-cases h.conn_sem) [
    | inl e ↦ rw (e, conn_sem_for) (record { conns_same = refl; open_same = λ i. refl })
    | inr e ↦ rw (e.1, conn_sem_for) (record { conns_same = refl; open_same = λ i. refl })
  ]

  take_slot-SameOpen :
      (ref : ℕ) (o : Option Semaphore) (h : WsHub F) → SameOpen h (take_slot ref o h).1
  unfolding take_slot
  take_slot-SameOpen ref none h = open_refl h
  take_slot-SameOpen ref (some s) h = elim (Bool-cases (ltb s.used s.cap)) [
    | inl room ↦ rw room (record { conns_same = refl; open_same = λ i. refl })
    | inr full ↦ rw full (open_refl h)
  ]

  enter-IsLive :
      (now : ℕ) (worker : WorkerInfo F) (slot : Option ℕ) (h : WsHub F)
      → IsLive h
      → IsLive (enter now worker slot h).1
  unfolding enter bridge
  enter-IsLive now worker none h live = live
  enter-IsLive now worker (some slot) h live =
      placed-IsLive
        (record {
          id = worker.id;
          worker = worker;
          closed = false;
          slot = some slot;
          pending = [];
          rejected_429 = 0;
          rejected_504 = 0;
        })
        h refl live

  admit-IsLive :
      (now : ℕ) (worker : WorkerInfo F) (h : WsHub F) → IsLive h → IsLive (admit now worker h).1
  unfolding admit acquire_conn
  admit-IsLive now worker h live =
      let sem = (conn_sem_for h).0 in
      let k : WsHub F = (conn_sem_for h).1 in
      let taken = take_slot sem (get_elem? k.sems sem) k in
      enter-IsLive now worker taken.0 taken.1 (
        SameOpen-IsLive k taken.1 (take_slot-SameOpen sem (get_elem? k.sems sem) k)
          (SameOpen-IsLive h k (conn_sem_for-SameOpen h) live))

  shut_down-IsLive : (now conn : ℕ) (h : WsHub F) → IsLive h → IsLive (shut_down now conn h)
  unfolding shut_down
  shut_down-IsLive now conn h live =
      shut_down_held-IsLive now conn (get_elem? h.connections conn) h refl live

  step-IsLive : (h : WsHub F) (s : Step F) → IsLive h → IsLive (step h s)
  unfolding step finish_conn_call
  step-IsLive h (sets_max_connections n) live =
      SameOpen-IsLive h _ (set_max_connections-SameOpen n h) live
  step-IsLive h (supersedes id) live = SameOpen-IsLive h _ (supersede-SameOpen id h) live
  step-IsLive h (admits now worker) live = admit-IsLive now worker h live
  step-IsLive h (releases conn) live = SameOpen-IsLive h _ (release_slot-SameOpen conn h) live
  step-IsLive h (shuts_down now conn) live = shut_down-IsLive now conn h live
  step-IsLive h (adds id conn) live =
      SameOutlines-IsLive h _ (add_pending-SameOutlines id conn h) live
  step-IsLive h (finishes ref) live =
      SameOutlines-IsLive h _ (finish_held-SameOutlines ref (get_elem? h.calls ref) h) live
  step-IsLive h (receives now conn frame) live = elim (dispatch-outcome now conn frame h) [
    | inl ended ↦ rw ended (shut_down-IsLive now conn h live)
    | inr same ↦ SameOutlines-IsLive h _ same live
  ]
  step-IsLive h (times_out id) live =
      SameOutlines-IsLive h _ (record_timeout-SameOutlines id h) live

  run-IsLive : (steps : List (Step F)) (h : WsHub F) → IsLive h → IsLive (run h steps)
  unfolding run
  run-IsLive [] h live = live
  run-IsLive (s ∷ ss) h live = run-IsLive ss (step h s) (step-IsLive h s live)

  -- After any sequence of steps of a new hub, each entry of its map of connections is a connection that
  -- is open and of the worker that the entry stands under.
  pub run-new_ws_hub-IsLive :
      (api_key : String) (registry : Registry F) (steps : List (Step F))
      → IsLive (run (new_ws_hub api_key registry) steps)
  unfolding new_ws_hub lookup
  run-new_ws_hub-IsLive api_key registry steps =
      run-IsLive steps (new_ws_hub api_key registry) (λ id ref e. absurd (none-ne-some ref e))
