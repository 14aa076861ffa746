-- ===== src/Connections/Calls/Slots.antt =====
-- The connection semaphores of pkg/router/ws_hub.go: how many slots the connections hold.
use mathlib.Core.Option.{none-ne-some, some_inj}
use infermesh.Prelude.{
  sym, ℕ, zero, suc, ◌+◌, ◌≤◌, ◌≡◌, refl, ap, ◌∙◌, subst, Bool, true, false, Option, none, some,
  List, [], ◌∷◌, ◌++◌, arith, str_eq, ◌==◌, if◌then◌else◌, Bool-cases, inl, inr, lookup, length,
  get_elem?, set,
}
use infermesh.Protocol.{removed}
use infermesh.Hub.{delete_own}
use infermesh.Connections.{Semaphore, WsHub, Connection}
use infermesh.Connections.Calls.{finish_conn_calls, pending_refs, shut_down_open, shut_down_held}
use infermesh.Connections.Calls.Outlines.{
  outline, SameOutlines, same_refl, same_trans, finish_conn_calls-SameOutlines, bridge-SameOutlines,
}

abbrev pub holds : ℕ → Option ℕ → Bool
holds sem none = false
holds sem (some r) = r == sem

-- How many connections hold a slot of the semaphore.
abbrev pub holders : {F : Type 0} → ℕ → List (Connection F) → ℕ
holders sem [] = 0
holders sem (c ∷ cs) = let rest = holders sem cs in if holds sem c.slot then suc rest else rest

-- Each semaphore holds one token for each connection with a slot of it, and not more than its capacity;
-- no connection holds a slot of a semaphore that does not exist.
pub record Accounted {F : Type 0} (h : WsHub F) : Type 0 where
  pub tokens :
      (sem : ℕ) (s : Semaphore)
      → get_elem? h.sems sem ≡ some s
      → (s.used ≡ holders sem h.connections) × (s.used ≤ s.cap)
  pub known : (sem : ℕ) → length h.sems ≤ sem → holders sem h.connections ≡ 0

module _ {F : Type 0} where
  pub holders-set :
      (sem : ℕ) (cs : List (Connection F)) (i : ℕ) (c d : Connection F)
      → get_elem? cs i ≡ some c
      → holders sem (set cs i d) + (if holds sem c.slot then 1 else 0)
        ≡ holders sem cs + (if holds sem d.slot then 1 else 0)
  holders-set sem [] i c d h = absurd (none-ne-some c h)
  holders-set sem (x ∷ cs) zero c d h = ground (arith, ap (λ k. k.slot) (some_inj.0 h))
  holders-set sem (x ∷ cs) (suc i) c d h = ground (arith, holders-set sem cs i c d h)

  pub holders-append :
      (sem : ℕ) (cs : List (Connection F)) (c : Connection F)
      → holders sem (cs ++ c ∷ []) ≡ holders sem cs + (if holds sem c.slot then 1 else 0)
  holders-append sem [] c = ground arith
  holders-append sem (x ∷ cs) c = ground (arith, holders-append sem cs c)

  -- No slot and no semaphore changes.
  pub record SameSlots (h k : WsHub F) : Type 0 where
    pub sems_same : k.sems ≡ h.sems
    pub holders_same : (sem : ℕ) → holders sem k.connections ≡ holders sem h.connections

  pub SameSlots-Accounted : (h k : WsHub F) → SameSlots h k → Accounted h → Accounted k
  SameSlots-Accounted h k s a = record {
    tokens = λ sem t g.
        rw (s.holders_same sem)
          (a.tokens sem t (subst (λ m. get_elem? m sem ≡ some t) s.sems_same g));
    known = λ sem b. s.holders_same sem ∙ a.known sem (subst (λ m. length m ≤ sem) s.sems_same b);
  }

  holds-outline :
      (sem : ℕ) (c d : Connection F)
      → outline (some d) ≡ outline (some c)
      → holds sem d.slot ≡ holds sem c.slot
  holds-outline sem c d e = ap (λ o. holds sem o) (ap (λ o. o.slot) (some_inj.0 e))

  holders-outlines :
      (sem : ℕ) (cs ds : List (Connection F))
      → ((i : ℕ) → outline (get_elem? ds i) ≡ outline (get_elem? cs i))
      → holders sem ds ≡ holders sem cs
  holders-outlines sem [] [] f = refl
  holders-outlines sem [] (d ∷ ds) f = absurd (none-ne-some _ (sym (f 0)))
  holders-outlines sem (c ∷ cs) [] f = absurd (none-ne-some _ (f 0))
  holders-outlines sem (c ∷ cs) (d ∷ ds) f =
      rw (holders-outlines sem cs ds (λ i. f (suc i)), holds-outline sem c d (f 0)) refl

  pub SameOutlines-SameSlots : (h k : WsHub F) → SameOutlines h k → SameSlots h k
  SameOutlines-SameSlots h k s = record {
    sems_same = s.sems_same;
    holders_same = λ sem. holders-outlines sem h.connections k.connections s.outlines_same;
  }

  slots_trans : (h k l : WsHub F) → SameSlots h k → SameSlots k l → SameSlots h l
  slots_trans h k l a b = record {
    sems_same = b.sems_same ∙ a.sems_same;
    holders_same = λ sem. b.holders_same sem ∙ a.holders_same sem;
  }

  -- A write to a connection that leaves its slot.
  set_same :
      (sem : ℕ) (cs : List (Connection F)) (i : ℕ) (c d : Connection F)
      → get_elem? cs i ≡ some c
      → d.slot ≡ c.slot
      → holders sem (set cs i d) ≡ holders sem cs
  set_same sem cs i c d h e = ground (arith, holders-set sem cs i c d h, e)

  shut_down_open-SameSlots :
      (now conn : ℕ) (c : Connection F) (h : WsHub F)
      → get_elem? h.connections conn ≡ some c
      → SameSlots h (shut_down_open now conn c h)
  unfolding shut_down_open
  shut_down_open-SameSlots now conn c h e = elim (Bool-cases (str_eq c.worker.id "")) [
    | inl t ↦ rw t (slots_trans h gone failed emptied (SameOutlines-SameSlots gone failed fails))
    | inr t ↦ rw t (
        slots_trans h gone _ emptied (
          SameOutlines-SameSlots gone _ (
            same_trans gone failed _ fails (
              bridge-SameOutlines now (record { type_ = removed; worker = c.worker; time = 0 })
                failed))))
  ]
    where
      gone : WsHub F
      gone = record h {
        conns = delete_own c.id conn (lookup c.id h.conns) h.conns;
        connections = set h.connections conn (record c { closed = true; pending = [] });
      }

      failed : WsHub F
      failed = finish_conn_calls (pending_refs c.pending) gone

      emptied : SameSlots h gone
      emptied = record {
        sems_same = refl;
        holders_same = λ sem. set_same sem h.connections conn c _ e refl;
      }

      fails : SameOutlines gone failed
      fails = finish_conn_calls-SameOutlines (pending_refs c.pending) gone

  pub shut_down_held-SameSlots :
      (now conn : ℕ) (o : Option (Connection F)) (h : WsHub F)
      → get_elem? h.connections conn ≡ o
      → SameSlots h (shut_down_held now conn o h)
  unfolding shut_down_held
  shut_down_held-SameSlots now conn none h e = SameOutlines-SameSlots h h (same_refl h)
  shut_down_held-SameSlots now conn (some c) h e = elim (Bool-cases c.closed) [
    | inl t ↦ rw t (SameOutlines-SameSlots h h (same_refl h))
    | inr t ↦ rw t (shut_down_open-SameSlots now conn c h e)
  ]
