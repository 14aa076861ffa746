-- ===== src/Connections/Calls/Live.antt =====
-- The map of connections of pkg/router/ws_hub.go: each entry is an open connection of its worker.
use text.Mathlib.TextEquality.{eq_iff}
use mathlib.Core.Option.{none-ne-some, some_inj}
use infermesh.Prelude.{
  ℕ, ◌≡◌, refl, sym, ap, ◌∙◌, subst, String, true, false, ◌&&◌, Option, none, some, List, [], ◌∷◌,
  ◌++◌, arith, str_eq, str_eq_sound, ◌==◌, ==_iff, if◌then◌else◌, Bool-cases, Option-cases, inl,
  inr, Map, lookup, insert, lookup-insert, lookup-delete, length, get_elem?, set,
  get_elem?-append_new, get_elem?-append_old,
}
use infermesh.Protocol.{removed}
use infermesh.Hub.{delete_own}
use infermesh.Connections.{WsHub, Connection}
use infermesh.Connections.Calls.{finish_conn_calls, pending_refs, shut_down_open, shut_down_held}
use infermesh.Connections.Calls.Outlines.{
  outline, SameOutlines, found, get_elem?-set_there, finish_conn_calls-SameOutlines,
  bridge-SameOutlines,
}

-- What an entry is after one of its own connection was deleted.
lookup-delete_own :
    (id k : String) (conn ref : ℕ) (m : Map ℕ)
    → lookup k (delete_own id conn (lookup id m) m) ≡ some ref
    → (lookup k m ≡ some ref) × ((str_eq id k && (ref == conn)) ≡ false)
lookup-delete_own id k conn ref m h = go (lookup id m) refl h
  where
    go :
        (o : Option ℕ)
        → lookup id m ≡ o
        → lookup k (delete_own id conn o m) ≡ some ref
        → (lookup k m ≡ some ref) × ((str_eq id k && (ref == conn)) ≡ false)
    go none e g = ground (arith, e, g, eq_iff id k)
    go (some cur) e g =
        ground (arith, e, g, eq_iff id k, lookup-delete id k m, ==_iff cur conn, ==_iff ref conn)

module _ {F : Type 0} where
  -- The id of a connection that is open.
  abbrev pub open_id : Option (Connection F) → Option String
  open_id none = none
  open_id (some c) = if c.closed then none else some c.id

  -- Each entry of the map of connections is an open connection of the worker that it stands under.
  abbrev pub IsLive : WsHub F → Type 0
  IsLive h =
      (id : String) (ref : ℕ)
      → lookup id h.conns ≡ some ref
      → open_id (get_elem? h.connections ref) ≡ some id

  -- The map of connections, and which are open, stay.
  pub record SameOpen (h k : WsHub F) : Type 0 where
    pub conns_same : k.conns ≡ h.conns
    pub open_same :
        (i : ℕ) → open_id (get_elem? k.connections i) ≡ open_id (get_elem? h.connections i)

  pub SameOpen-IsLive : (h k : WsHub F) → SameOpen h k → IsLive h → IsLive k
  SameOpen-IsLive h k s live id ref e =
      s.open_same ref ∙ live id ref (subst (λ m. lookup id m ≡ some ref) s.conns_same e)

  open_id-outline : (o p : Option (Connection F)) → outline p ≡ outline o → open_id p ≡ open_id o
  open_id-outline none none e = refl
  open_id-outline none (some d) e = absurd (none-ne-some _ (sym e))
  open_id-outline (some c) none e = absurd (none-ne-some _ e)
  open_id-outline (some c) (some d) e =
      rw (ap (λ o. o.id) (some_inj.0 e), ap (λ o. o.closed) (some_inj.0 e)) refl

  pub SameOutlines-IsLive : (h k : WsHub F) → SameOutlines h k → IsLive h → IsLive k
  SameOutlines-IsLive h k s live id ref e =
      open_id-outline (get_elem? h.connections ref) (get_elem? k.connections ref)
        (s.outlines_same ref)
      ∙ live id ref (subst (λ m. lookup id m ≡ some ref) s.conns_same e)

  -- The end of an open connection, before its calls fail.
  gone : ℕ → Connection F → WsHub F → WsHub F
  gone conn c h = record h {
    conns = delete_own c.id conn (lookup c.id h.conns) h.conns;
    connections = set h.connections conn (record c { closed = true; pending = [] });
  }

  gone-IsLive :
      (conn : ℕ) (c : Connection F) (h : WsHub F)
      → get_elem? h.connections conn ≡ some c
      → c.closed ≡ false
      → IsLive h
      → IsLive (gone conn c h)
  unfolding gone
  gone-IsLive conn c h g o live id ref e =
      let was = lookup-delete_own c.id id conn ref h.conns e in
      elim (Bool-cases (ref == conn)) [
        | inr other ↦
            ap open_id (get_elem?-set_there h.connections conn ref c _ g other) ∙ live id ref was.0
        | inl same ↦
            let here : some c.id ≡ some id =
              sym (opened o)
              ∙ sym (ap open_id (found h.connections conn ref c g same))
              ∙ live id ref was.0 in
            absurd (ground (arith, was.1, same, eq_iff c.id id, some_inj.0 here))
      ]
    where
      opened : c.closed ≡ false → open_id (some c) ≡ some c.id
      opened p = rw p refl

  shut_down_open-IsLive :
      (now conn : ℕ) (c : Connection F) (h : WsHub F)
      → get_elem? h.connections conn ≡ some c
      → c.closed ≡ false
      → IsLive h
      → IsLive (shut_down_open now conn c h)
  unfolding shut_down_open gone
  shut_down_open-IsLive now conn c h g o live = elim (Bool-cases (str_eq c.worker.id "")) [
    | inl t ↦ rw t failed
    | inr t ↦ rw t (
        SameOutlines-IsLive (finish_conn_calls (pending_refs c.pending) (gone conn c h)) _
          (bridge-SameOutlines now (record { type_ = removed; worker = c.worker; time = 0 })
            (finish_conn_calls (pending_refs c.pending) (gone conn c h)))
          failed)
  ]
    where
      failed : IsLive (finish_conn_calls (pending_refs c.pending) (gone conn c h))
      failed =
          SameOutlines-IsLive (gone conn c h) _
            (finish_conn_calls-SameOutlines (pending_refs c.pending) (gone conn c h))
            (gone-IsLive conn c h g o live)

  pub shut_down_held-IsLive :
      (now conn : ℕ) (o : Option (Connection F)) (h : WsHub F)
      → get_elem? h.connections conn ≡ o
      → IsLive h
      → IsLive (shut_down_held now conn o h)
  unfolding shut_down_held
  shut_down_held-IsLive now conn none h e live = live
  shut_down_held-IsLive now conn (some c) h e live = elim (Bool-cases c.closed) [
    | inl t ↦ rw t live
    | inr t ↦ rw t (shut_down_open-IsLive now conn c h e t live)
  ]

  open_id-append :
      (cs : List (Connection F)) (c : Connection F) (ref : ℕ) (id : String)
      → open_id (get_elem? cs ref) ≡ some id
      → open_id (get_elem? (cs ++ c ∷ []) ref) ≡ some id
  open_id-append cs c ref id e = elim (Option-cases (get_elem? cs ref)) [
    | inl n ↦ absurd (none-ne-some id (ap open_id (sym n) ∙ e))
    | inr s ↦ ap open_id (get_elem?-append_old cs c s.0 ref s.1 ∙ sym s.1) ∙ e
  ]

  -- A new open connection at the end, under its id.
  pub placed-IsLive :
      (c : Connection F) (h : WsHub F)
      → c.closed ≡ false
      → IsLive h
      → IsLive (record h {
        conns = insert c.id (length h.connections) h.conns;
        connections = h.connections ++ c ∷ [];
      })
  placed-IsLive c h o live id ref e = elim (Bool-cases (str_eq c.id id)) [
    | inl same ↦
        let at : some (length h.connections) ≡ some ref =
          sym (lookup-insert c.id id (length h.connections) h.conns ∙ rw same refl) ∙ e in
        subst (λ k. open_id (get_elem? (h.connections ++ c ∷ []) k) ≡ some id) (some_inj.0 at)
          (ap open_id (get_elem?-append_new h.connections c)
            ∙ opened
            ∙ ap some (str_eq_sound c.id id same))
    | inr other ↦ open_id-append h.connections c ref id (
        live id ref
          (sym (lookup-insert c.id id (length h.connections) h.conns ∙ rw other refl) ∙ e))
  ]
    where
      opened : open_id (some c) ≡ some c.id
      opened = rw o refl
