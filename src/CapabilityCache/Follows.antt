-- ===== src/CapabilityCache/Follows.antt =====
-- The cache of pkg/router/capability_cache.go against the registry of internal/registry/memory.go,
-- whose events it follows.
use text.Mathlib.TextEquality.{eq_iff}
use infermesh.Prelude.{
  ℕ, suc, ◌≤◌, ◌≡◌, refl, subst, ◌∙◌, String, Bool, true, false, Option, none, some, List, [], ◌∷◌,
  ◌++◌, arith, str_eq, if◌then◌else◌, Bool-cases, inl, inr, lookup, insert, lookup-insert,
  lookup-delete, length,
}
use infermesh.Protocol.{WorkerInfo, Capabilities, InferenceStatsSnapshot}
use infermesh.Registry.{
  Registry, Subscriber, Event, event, probe, register_added, registry_updated, registry_removed,
  registry_unavailable, Call, step,
}
use infermesh.Registry.Entries.{IsValid, step-IsValid}
use infermesh.Registry.Emits.{visible, learn, learn_all, emitted, emitted-visible, emitted-length}
use infermesh.Registry.Subscribers.{step-Received}
use infermesh.CapabilityCache.{
  CapabilityCache, transport_ws, get, update, store_capabilities, fetch_capabilities,
  set_inference_stats, forget, on_event, on_events,
}

module _ {F : Type 0} where
  -- The cached worker is the registry's, but for the capabilities that it was asked for.
  pub record SameWorker (w cached : WorkerInfo F) : Type 0 where
    pub same : record w { capabilities = cached.capabilities } ≡ cached
    pub same_ws : w.transport ≡ transport_ws → cached ≡ w

  -- What the cache has for a worker, against what the registry shows of it.
  abbrev pub Agree : Option (WorkerInfo F) → Option (WorkerInfo F) → Type 0
  Agree none none = Unit
  Agree none (some cached) = ⊥
  Agree (some w) none = ⊥
  Agree (some w) (some cached) = SameWorker w cached

  set_inference_stats-get :
      (id k : String) (snaps : List (InferenceStatsSnapshot F)) (c : CapabilityCache F)
      → get k (set_inference_stats id snaps c) ≡ get k c
  unfolding set_inference_stats get
  set_inference_stats-get id k [] c = refl
  set_inference_stats-get id k (s ∷ snaps) c = refl

  -- What `Update` leaves in the cache for every worker.
  abbrev updated_worker : Option (Capabilities F) → WorkerInfo F → WorkerInfo F
  updated_worker none w = w
  updated_worker (some caps) w = record w { capabilities = caps }

  get-store_capabilities :
      (caps : Option (Capabilities F)) (w : WorkerInfo F) (id : String) (c : CapabilityCache F)
      → get id (store_capabilities w caps (record c { cache = insert w.id w c.cache }))
        ≡ (if str_eq w.id id then some (updated_worker caps w) else get id c)
  unfolding get store_capabilities
  get-store_capabilities none w id c = lookup-insert w.id id w c.cache
  get-store_capabilities (some caps) w id c =
      set_inference_stats-get w.id id caps.inference_stats _
      ∙ ground (
        arith,
        lookup-insert w.id id w c.cache,
        lookup-insert w.id id (record w { capabilities = caps }) (insert w.id w c.cache),
      )

  updated_worker-SameWorker :
      (answer : Option (Capabilities F)) (w : WorkerInfo F)
      → SameWorker w (updated_worker (fetch_capabilities answer w) w)
  unfolding fetch_capabilities
  updated_worker-SameWorker answer w = elim (Bool-cases (str_eq w.transport transport_ws)) [
    | inl ws ↦ rw ws (record { same = refl; same_ws = λ h. refl })
    | inr http ↦ rw http (answered http answer)
  ]
    where
      answered :
          str_eq w.transport transport_ws ≡ false
          → (a : Option (Capabilities F)) → SameWorker w (updated_worker a w)
      answered http none = record { same = refl; same_ws = λ h. refl }
      answered http (some caps) = record {
        same = refl;
        same_ws = λ h. ground (arith, eq_iff w.transport transport_ws, http);
      }

  get-forget :
      (w : WorkerInfo F) (id : String) (c : CapabilityCache F)
      → get id (forget w c) ≡ (if str_eq w.id id then none else get id c)
  unfolding get forget
  get-forget w id c = lookup-delete w.id id c.cache

  if-Agree :
      (b : Bool) (v v' x x' : Option (WorkerInfo F))
      → Agree v x
      → Agree v' x'
      → Agree (if b then v else v') (if b then x else x')
  if-Agree true v v' x x' a a' = a
  if-Agree false v v' x x' a a' = a'

  update-Agree :
      (answer : Option (Capabilities F)) (id : String) (w : WorkerInfo F)
      (old : Option (WorkerInfo F)) (c : CapabilityCache F)
      → Agree old (get id c)
      → Agree (if str_eq w.id id then some w else old) (get id (update answer w c))
  unfolding update
  update-Agree answer id w old c a =
      rw (get-store_capabilities (fetch_capabilities answer w) w id c)
        (if-Agree (str_eq w.id id) (some w) old _ (get id c) (updated_worker-SameWorker answer w) a)

  forget-Agree :
      (id : String) (w : WorkerInfo F) (old : Option (WorkerInfo F)) (c : CapabilityCache F)
      → Agree old (get id c)
      → Agree (if str_eq w.id id then none else old) (get id (forget w c))
  forget-Agree id w old c a =
      rw (get-forget w id c) (if-Agree (str_eq w.id id) none old none (get id c) tt a)

  on_event-Agree :
      (answer : Option (Capabilities F)) (id : String) (e : Event F) (old : Option (WorkerInfo F))
      (c : CapabilityCache F)
      → Agree old (get id c)
      → Agree (learn id e old) (get id (on_event answer e c))
  unfolding on_event update
  on_event-Agree answer id (event register_added w) old c a = update-Agree answer id w old c a
  on_event-Agree answer id (event registry_updated w) old c a = update-Agree answer id w old c a
  on_event-Agree answer id (event registry_removed w) old c a = forget-Agree id w old c a
  on_event-Agree answer id (event registry_unavailable w) old c a = forget-Agree id w old c a
  on_event-Agree answer id probe old c a = a

  on_events-Agree :
      (answers : ℕ → Option (Capabilities F)) (id : String) (es : List (Event F))
      (old : Option (WorkerInfo F)) (c : CapabilityCache F)
      → Agree old (get id c)
      → Agree (learn_all id es old) (get id (on_events answers es c))
  unfolding on_events
  on_events-Agree answers id [] old c a = a
  on_events-Agree answers id (e ∷ es) old c a =
      on_events-Agree (λ n. answers (suc n)) id es (learn id e old) (on_event (answers 0) e c)
        (on_event-Agree (answers 0) id e old c a)

  -- The cache holds exactly the available workers of the registry.
  abbrev pub Mirrors : Registry F → CapabilityCache F → Type 0
  Mirrors r c = (id : String) → Agree (visible (lookup id r.workers)) (get id c)

  -- The cache, as the first subscriber, reads its channel empty.
  abbrev drain_first :
      (ℕ → Option (Capabilities F))
      → List (Subscriber F)
      → Registry F
      → CapabilityCache F
      → Registry F × CapabilityCache F
  drain_first answers [] r c = (r, c)
  drain_first answers (s ∷ subs) r c =
      (record r { subs = record s { queue = [] } ∷ subs }, on_events answers s.queue c)

  abbrev turn :
      Registry F × CapabilityCache F
      → Call F × (ℕ → Option (Capabilities F))
      → Registry F × CapabilityCache F
  turn (r, c) (call, answers) = drain_first answers (step r call).subs (step r call) c

  -- After each call the cache reads its channel empty; it has its own answers at each turn.
  abbrev pub turns :
      Registry F × CapabilityCache F
      → List (Call F × (ℕ → Option (Capabilities F)))
      → Registry F × CapabilityCache F
  turns rc [] = rc
  turns rc (t ∷ ts) = turns (turn rc t) ts

  -- Never more than 31 workers while the history runs.
  abbrev pub SmallFleet :
      Registry F × CapabilityCache F → List (Call F × (ℕ → Option (Capabilities F))) → Type 0
  SmallFleet rc [] = Unit
  SmallFleet rc (t ∷ ts) = (length rc.0.workers ≤ 31) × SmallFleet (turn rc t) ts

  -- A valid registry whose first subscriber, with an empty channel, is the cache that mirrors it.
  pub record Linked (r : Registry F) (c : CapabilityCache F) : Type 0 where
    pub valid : IsValid r
    pub sub : Subscriber F
    pub others : List (Subscriber F)
    pub linked : r.subs ≡ sub ∷ others
    pub read : sub.queue ≡ []
    pub mirrors : Mirrors r c

  on_events-probe :
      (answers : ℕ → Option (Capabilities F)) (es : List (Event F)) (c : CapabilityCache F)
      → on_events answers (es ++ probe ∷ []) c ≡ on_events answers es c
  unfolding on_events on_event
  on_events-probe answers [] c = refl
  on_events-probe answers (e ∷ es) c = on_events-probe (λ n. answers (suc n)) es _

  on_events-Mirrors :
      (r : Registry F) (c : CapabilityCache F) (call : Call F)
      (answers : ℕ → Option (Capabilities F))
      → IsValid r
      → Mirrors r c
      → Mirrors (step r call) (on_events answers (emitted r call) c)
  on_events-Mirrors r c call answers v m id =
      subst (λ o. Agree o (get id (on_events answers (emitted r call) c)))
        (emitted-visible r call id v)
        (on_events-Agree answers id (emitted r call) (visible (lookup id r.workers)) c (m id))

  turn-Linked :
      (r : Registry F) (c : CapabilityCache F) (call : Call F)
      (answers : ℕ → Option (Capabilities F))
      → Linked r c
      → length r.workers ≤ 31
      → Linked (turn (r, c) (call, answers)).0 (turn (r, c) (call, answers)).1
  turn-Linked r c call answers l h =
      let x =
        step-Received r call l.sub l.others l.linked l.read
          (omega (arith, emitted-length r call 31 h (omega arith))) in
      let v = step-IsValid r call l.valid in
      let m = on_events-Mirrors r c call answers l.valid l.mirrors in
      rw x.there (record {
        valid = record {
          config_valid = v.config_valid;
          distinct = v.distinct;
          entries = v.entries;
        };
        sub = record x.first { queue = [] };
        others = x.others;
        linked = refl;
        read = refl;
        mirrors = elim x.received [
          | inl q ↦ rw q m
          | inr q ↦ rw (q, on_events-probe answers (emitted r call) c) m
        ];
      })

  -- Through every history of a valid registry with at most 31 workers, the cache that is its first
  -- subscriber, mirrors it at the start and reads its channel after each call holds exactly the workers that the registry has as available, each as the registry
  -- knows it but for the capabilities that it was asked for, whichever of these requests fail.
  pub cache_follows :
      (r : Registry F) (c : CapabilityCache F) (ts : List (Call F × (ℕ → Option (Capabilities F))))
      → Linked r c
      → SmallFleet (r, c) ts
      → Mirrors (turns (r, c) ts).0 (turns (r, c) ts).1
  cache_follows r c [] l h = l.mirrors
  cache_follows r c (t ∷ ts) l h =
      cache_follows (turn (r, c) t).0 (turn (r, c) t).1 ts (turn-Linked r c t.0 t.1 l h.0) h.1
