-- ===== src/WorkerRun/OneLoop.antt =====
-- The goroutines that register a worker, of pkg/worker/run.go.
use mathlib.Core.Option.{none-ne-some, some_inj}
use infermesh.Prelude.{
  ℕ, zero, suc, ◌≡◌, refl, sym, ap, ◌∙◌, subst, inl, inr, String, Bool, true, false, not, ◌&&◌,
  ◌||◌, Option, none, some, List, [], ◌∷◌, arith, str_eq, if◌then◌else◌, Bool-cases, length, ==_iff,
  map, get_elem?, get_elem?-set_cases, get_elem?-append_cases,
}
use infermesh.Connections.{transport_ws}
use infermesh.WorkerRun.{
  ReloadableConfig, RunConfig, Loop, ws_loop, http_loop, mtls_loop, Goroutine, Handle, Addresses,
  ConfigError, cancelled, cancel_at, cancel_registration, start_loop, choose_loop, start_chosen,
  launch_registration, launch_mtls_registration, new_reloadable_config, effective_reload_config,
  relaunch, set_filters, apply_config, reload_config, initial_handle, register_without_relay,
  run_worker, stop, Call, reloads, stops, step, run,
}

abbrev pub config_of : Loop → ReloadableConfig
config_of (ws_loop cfg) = cfg
config_of (http_loop cfg) = cfg
config_of (mtls_loop cfg) = cfg

-- No goroutine of the list runs.
abbrev pub AllQuiet : List Goroutine → Type 0
AllQuiet loops = (i : ℕ) (g : Goroutine) → get_elem? loops i ≡ some g → g.running ≡ false

-- A goroutine that runs is the one that `regCancel` cancels, and has the current configuration; none
-- runs once the worker is stopped.
pub record OneLoop (h : Handle) : Type 0 where
  pub only :
      (i : ℕ) (g : Goroutine)
      → get_elem? h.loops i ≡ some g
      → g.running ≡ true
      → (h.reg_cancel ≡ some i) × (config_of g.loop ≡ h.reg_config)
  pub quiet : h.stopped ≡ true → AllQuiet h.loops

true-ne-false : true ≡ false → ⊥
true-ne-false h = absurd (ground (arith, h))

quiet_at : (g : Goroutine) → (g.running ≡ true → ⊥) → g.running ≡ false
quiet_at g h = elim (Bool-cases g.running) [ inl e ↦ absurd (h e) | inr e ↦ e ]

-- What `regCancel` leaves.
cancelled_at-AllQuiet :
    (ref : ℕ) (h : Handle)
    → OneLoop h
    → h.reg_cancel ≡ some ref
    → (o : Option Goroutine) → get_elem? h.loops ref ≡ o
    → AllQuiet (cancel_at o ref h).loops
unfolding cancel_at
cancelled_at-AllQuiet ref h k r none e i g f = quiet_at g (λ on.
    none-ne-some g (sym e ∙ ap (get_elem? h.loops) (some_inj.0 (sym r ∙ (k.only i g f on).0)) ∙ f))
cancelled_at-AllQuiet ref h k r (some held) e i g f =
    elim (get_elem?-set_cases h.loops ref i (cancelled held) held g e f) [
      | inl (same, q) ↦ subst (λ x. x.running ≡ false) q refl
      | inr (differs, q) ↦ quiet_at g (λ on.
          true-ne-false
            (sym ((==_iff i ref).1 (some_inj.0 (sym (k.only i g q on).0 ∙ r))) ∙ differs))
    ]

cancel_from-AllQuiet :
    (h : Handle)
    → OneLoop h
    → (o : Option ℕ) → h.reg_cancel ≡ o
    → AllQuiet (cancel_registration o h).loops
unfolding cancel_registration
cancel_from-AllQuiet h k none e i g f =
    quiet_at g (λ on. none-ne-some i (sym e ∙ (k.only i g f on).0))
cancel_from-AllQuiet h k (some ref) e i g f =
    cancelled_at-AllQuiet ref h k e (get_elem? h.loops ref) refl i g f

start_loop-OneLoop :
    (loop : Loop) (h : Handle)
    → AllQuiet h.loops
    → config_of loop ≡ h.reg_config
    → OneLoop (start_loop loop h)
unfolding start_loop
start_loop-OneLoop loop h quiet c = record {
  only = λ i g f on. elim (get_elem?-append_cases h.loops new g i f) [
    | inl (same, q) ↦ (
      ap some (sym ((==_iff i (length h.loops)).0 same)),
      subst (λ x. config_of x.loop ≡ h.reg_config) q c,
    )
    | inr (differs, q) ↦ absurd (true-ne-false (sym on ∙ quiet i g q))
  ];
  quiet = λ stopped i g f. elim (get_elem?-append_cases h.loops new g i f) [
    | inl (same, q) ↦ subst (λ x. x.running ≡ false) q (ap not stopped)
    | inr (differs, q) ↦ quiet i g q
  ];
}
  where
    new : Goroutine
    new = record { loop = loop; running = not h.stopped }

no_loop-OneLoop : (h : Handle) → AllQuiet h.loops → OneLoop h
no_loop-OneLoop h quiet = record {
  only = λ i g f on. absurd (true-ne-false (sym on ∙ quiet i g f));
  quiet = λ stopped. quiet;
}

start_chosen-OneLoop :
    (o : Option Loop) (h : Handle)
    → AllQuiet h.loops
    → ((loop : Loop) → o ≡ some loop → config_of loop ≡ h.reg_config)
    → OneLoop (start_chosen o h)
start_chosen-OneLoop none h quiet c = no_loop-OneLoop h quiet
start_chosen-OneLoop (some loop) h quiet c = start_loop-OneLoop loop h quiet (c loop refl)

chosen :
    (cfg : ReloadableConfig) (l loop : Loop)
    → some l ≡ some loop
    → config_of l ≡ cfg
    → config_of loop ≡ cfg
chosen cfg l loop h c = subst (λ x. config_of x ≡ cfg) (some_inj.0 h) c

choose_loop-config :
    (reachable : Bool) (cfg : ReloadableConfig) (loop : Loop)
    → choose_loop reachable cfg ≡ some loop
    → config_of loop ≡ cfg
unfolding choose_loop
choose_loop-config reachable cfg loop h = elim (Bool-cases (str_eq cfg.relay_url "")) [
  | inl no_relay ↦ elim (Bool-cases (str_eq cfg.router_base "")) [
    | inl no_router ↦ absurd (none-ne-some loop (rw (no_relay, no_router, choose_loop) at h))
    | inr router ↦ chosen cfg (http_loop cfg) loop (rw (no_relay, router, choose_loop) at h) refl
  ]
  | inr relay ↦ elim (Bool-cases (not (str_eq cfg.router_base "") && not reachable)) [
    | inl lost ↦ chosen cfg (http_loop cfg) loop (rw (relay, lost, choose_loop) at h) refl
    | inr found ↦ chosen cfg (ws_loop cfg) loop (rw (relay, found, choose_loop) at h) refl
  ]
]

-- The handle when the loop before is cancelled.
abbrev swapped : ReloadableConfig → Handle → Handle
swapped cfg h = record (cancel_registration h.reg_cancel h) { reg_config = cfg }

launch_registration-OneLoop :
    (reachable : Bool) (cfg : ReloadableConfig) (h : Handle)
    → OneLoop h
    → OneLoop (launch_registration reachable cfg h)
unfolding launch_registration
launch_registration-OneLoop reachable cfg h k =
    start_chosen-OneLoop (choose_loop reachable cfg) (swapped cfg h)
      (cancel_from-AllQuiet h k h.reg_cancel refl) (choose_loop-config reachable cfg)

launch_mtls_registration-OneLoop :
    (cfg : ReloadableConfig) (h : Handle) → OneLoop h → OneLoop (launch_mtls_registration cfg h)
unfolding launch_mtls_registration
launch_mtls_registration-OneLoop cfg h k =
    start_loop-OneLoop (mtls_loop cfg) (swapped cfg h) (cancel_from-AllQuiet h k h.reg_cancel refl)
      refl

relaunch-OneLoop :
    (mtls reachable : Bool) (cfg : ReloadableConfig) (h : Handle)
    → OneLoop h
    → OneLoop (relaunch mtls reachable cfg h)
unfolding relaunch
relaunch-OneLoop true reachable cfg h k = launch_mtls_registration-OneLoop cfg h k
relaunch-OneLoop false reachable cfg h k = launch_registration-OneLoop reachable cfg h k

apply_config-OneLoop :
    (is_space : ℕ → Bool) (reachable : Bool) (cfg : ReloadableConfig) (o : Option ConfigError)
    (h : Handle)
    → OneLoop h
    → OneLoop (apply_config is_space reachable cfg o h).0
unfolding apply_config set_filters
apply_config-OneLoop is_space reachable cfg (some e) h k = k
apply_config-OneLoop is_space reachable cfg none h k =
    relaunch-OneLoop h.reg_use_mtls reachable cfg (set_filters is_space cfg h)
      (record { only = k.only; quiet = k.quiet })

map-cancelled-AllQuiet : (loops : List Goroutine) → AllQuiet (map cancelled loops)
map-cancelled-AllQuiet [] i g f = absurd (none-ne-some g f)
map-cancelled-AllQuiet (x ∷ xs) zero g f = subst (λ y. y.running ≡ false) (some_inj.0 f) refl
map-cancelled-AllQuiet (x ∷ xs) (suc i) g f = map-cancelled-AllQuiet xs i g f

step-OneLoop :
    (is_space : ℕ → Bool) (net : Addresses) (h : Handle) (c : Call)
    → OneLoop h
    → OneLoop (step is_space net h c)
unfolding step reload_config stop
step-OneLoop is_space net h (reloads env reachable) k =
    apply_config-OneLoop is_space reachable (effective_reload_config env h.reg_config) _ h k
step-OneLoop is_space net h stops k = no_loop-OneLoop (stop h) (map-cancelled-AllQuiet h.loops)

run-OneLoop :
    (is_space : ℕ → Bool) (net : Addresses) (h : Handle) (calls : List Call)
    → OneLoop h
    → OneLoop (run is_space net h calls)
unfolding run
run-OneLoop is_space net h [] k = k
run-OneLoop is_space net h (c ∷ calls) k =
    run-OneLoop is_space net (step is_space net h c) calls (step-OneLoop is_space net h c k)

no_loops-OneLoop : (h : Handle) → h.loops ≡ [] → OneLoop h
no_loops-OneLoop h e =
    no_loop-OneLoop h (λ i g f. absurd (none-ne-some g (ap (λ xs. get_elem? xs i) (sym e) ∙ f)))

if_OneLoop : (b : Bool) {x y : Handle} → OneLoop x → OneLoop y → OneLoop (if b then x else y)
if_OneLoop true p q = p
if_OneLoop false p q = q

register_without_relay-OneLoop :
    (reachable : Bool) (cfg : RunConfig) (h : Handle)
    → h.loops ≡ []
    → OneLoop (register_without_relay reachable cfg h)
unfolding register_without_relay
register_without_relay-OneLoop reachable cfg h e =
    if_OneLoop (not (str_eq cfg.prod_router "") && not cfg.dev_mode)
      (launch_mtls_registration-OneLoop (new_reloadable_config cfg)
        (record h { reg_ip = "127.0.0.1" }) (no_loops-OneLoop _ e))
      (if_OneLoop (not (str_eq cfg.router_base ""))
        (launch_registration-OneLoop reachable (new_reloadable_config cfg)
          (record h { reg_ip = if cfg.dev_mode then h.reg_ip else "127.0.0.1" })
          (no_loops-OneLoop _ e))
        (no_loops-OneLoop (record h { announcing = true }) e))

run_worker-OneLoop :
    (is_space : ℕ → Bool) (ip : String) (first second : Bool) (cfg : RunConfig)
    → OneLoop (run_worker is_space ip first second cfg)
unfolding run_worker initial_handle
run_worker-OneLoop is_space ip first second cfg =
    let h = initial_handle is_space ip cfg in
    if_OneLoop
      (not (str_eq cfg.relay_url "") && cfg.dev_mode && (first || str_eq cfg.router_base ""))
      (launch_registration-OneLoop second (new_reloadable_config cfg)
        (record h { reg_transport = transport_ws }) (no_loops-OneLoop _ refl))
      (register_without_relay-OneLoop second cfg h refl)

-- However a worker is started, and through every sequence of reloads and stops, at most one goroutine
-- registers it: one that runs is the one that the next reload cancels, and it has the configuration that
-- is current; once the worker is stopped none runs, also after a further reload. This holds for every
-- answer of the environment, the relay and package net.
pub run-run_worker-OneLoop :
    (is_space : ℕ → Bool) (net : Addresses) (ip : String) (first second : Bool) (cfg : RunConfig)
    (calls : List Call)
    → OneLoop (run is_space net (run_worker is_space ip first second cfg) calls)
run-run_worker-OneLoop is_space net ip first second cfg calls =
    run-OneLoop is_space net (run_worker is_space ip first second cfg) calls
      (run_worker-OneLoop is_space ip first second cfg)
