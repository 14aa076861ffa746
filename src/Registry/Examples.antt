-- ===== src/Registry/Examples.antt =====
-- A registry with two workers, and the theorems about it.
use infermesh.Prelude.{ℕ, ◌*◌, ◌≡◌, refl, String, some, List, [], ◌∷◌, ◌++◌, pos, lookup}
use infermesh.Protocol.{WorkerInfo, DiscoveryEvent, added, status_available}
use infermesh.Registry.{
  defaults, validate, Registry, Subscriber, Call, handles, sweeps, subscribes, probe, new_registry,
  run, step, handle_event, subscribe, Event,
}
use infermesh.Registry.Entries.{IsValid, run-new_registry-IsValid}
use infermesh.Registry.Emits.{visible, learn_all, emitted, emitted-visible}

-- Floating-point values play no part here.
abbrev pub worker : String → WorkerInfo ℕ
worker id = record {
  id = id;
  hostname = id;
  ip = "10.0.0.1";
  port = pos 8090;
  capabilities = record {
    gpu = record {
      vendor = "none";
      model = "";
      compute_core = pos 0;
      total_vram = pos 0;
      free_vram = pos 0;
    };
    models = [];
    engines = [];
    vram = record { total_mb = pos 0; free_mb = pos 0 };
    system = record { total_mb = pos 0; free_mb = pos 0 };
    allowed_models = [];
    excluded_models = [];
    concurrency_cap = pos 0;
    threads = pos 4;
    inference_stats = [];
  };
  status = status_available;
  version = "1";
  transport = "http";
  api_key = "";
  last_seen = 0;
}

abbrev pub added_event : String → DiscoveryEvent ℕ
added_event id = record { type_ = added; worker = worker id; time = 0 }

-- Seconds, as the nanoseconds of a Go duration.
abbrev pub sec : ℕ → ℕ
sec n = n * 1000000000

abbrev pub empty : Registry ℕ
empty = record { cfg = defaults; workers = []; subs = [] }

abbrev pub two_joined : List (Call ℕ)
two_joined =
    subscribes
    ∷ handles (sec 1) (added_event "a")
    ∷ handles (sec 50) (added_event "b")
    ∷ sweeps (sec 62)
    ∷ []

new_defaults : new_registry {F = ℕ} defaults ≡ some empty
unfolding new_registry validate defaults
new_defaults = refl

run-new_registry-IsValid_example : IsValid (run empty two_joined)
run-new_registry-IsValid_example = run-new_registry-IsValid defaults empty two_joined new_defaults

abbrev joined : Registry ℕ
joined =
    handle_event (sec 50) (added_event "b")
      (handle_event (sec 1) (added_event "a") (subscribe empty))

joined-IsValid : IsValid joined
joined-IsValid =
    unfold run step in
    run-new_registry-IsValid defaults empty
      (subscribes ∷ handles (sec 1) (added_event "a") ∷ handles (sec 50) (added_event "b") ∷ [])
      new_defaults

emitted-visible_example :
    learn_all "a" (emitted joined (sweeps (sec 62))) (visible (lookup "a" joined.workers))
    ≡ visible (lookup "a" (step joined (sweeps (sec 62))).workers)
emitted-visible_example = emitted-visible joined (sweeps (sec 62)) "a" joined-IsValid

abbrev thirty_two : List (Event ℕ)
thirty_two = eight ++ eight ++ eight ++ eight
  where
    eight : List (Event ℕ)
    eight = probe ∷ probe ∷ probe ∷ probe ∷ probe ∷ probe ∷ probe ∷ probe ∷ []

abbrev full : Subscriber ℕ
full = record { queue = thirty_two; failures = 0 }
