-- ===== src/CapabilityCache/Examples.antt =====
-- A cache beside a registry, and the theorems about them.
use infermesh.Prelude.{
  ℕ, refl, String, Option, none, some, List, [], ◌∷◌, arith, pos, lookup, insert,
}
use infermesh.Protocol.{WorkerInfo, Capabilities, added, status_available}
use infermesh.Registry.{
  defaults, validate, Registry, Call, handles, sweeps, handle_event, transition, broadcast,
  broadcast_all, send, new_registry, run, step, check_stale, sweep, check_entry, prune_subs,
  prune_subs_loop, subscribe, subscribes,
}
use infermesh.Registry.Entries.{IsValid, run-new_registry-IsValid}
use infermesh.CapabilityCache.{new_capability_cache, get}
use infermesh.CapabilityCache.Follows.{Linked, Mirrors, turns, SmallFleet, cache_follows}

abbrev caps : Capabilities ℕ
caps = record {
  gpu = record {
    vendor = "none";
    model = "";
    compute_core = pos 0;
    total_vram = pos 0;
    free_vram = pos 0;
  };
  models = [];
  engines = [];
  vram = record { total_mb = pos 0; free_mb = pos 0 };
  system = record { total_mb = pos 0; free_mb = pos 0 };
  allowed_models = [];
  excluded_models = [];
  concurrency_cap = pos 0;
  threads = pos 4;
  inference_stats = [];
}

abbrev worker : String → WorkerInfo ℕ
worker id = record {
  id = id;
  hostname = id;
  ip = "10.0.0.1";
  port = pos 8090;
  capabilities = caps;
  status = status_available;
  version = "1";
  transport = "http";
  api_key = "";
  last_seen = 0;
}

abbrev measured : Capabilities ℕ
measured = record caps {
  inference_stats =
      record {
        model = "llama";
        tokens_per_second = 30;
        avg_ttft_ms = 200;
        avg_prompt_tokens = 100;
        avg_completion_tokens = 50;
        samples = pos 8;
      }
      ∷ [];
}

abbrev start : Registry ℕ
start = record { cfg = defaults; workers = []; subs = record { queue = []; failures = 0 } ∷ [] }

start-IsValid : IsValid start
start-IsValid =
    unfold run step subscribe in
    run-new_registry-IsValid defaults (record { cfg = defaults; workers = []; subs = [] })
      (subscribes ∷ []) (unfold new_registry validate defaults in refl)

-- Worker "a" joins and does not answer; "b" joins and answers; both fall silent; "a" joins again.
abbrev history : List (Call ℕ × (ℕ → Option (Capabilities ℕ)))
history =
    (handles 1000000000 (record { type_ = added; worker = worker "a"; time = 0 }), λ n. none)
    ∷ (
      handles 2000000000 (record { type_ = added; worker = worker "b"; time = 0 }),
      λ n. some measured,
    )
    ∷ (sweeps 70000000000, λ n. none)
    ∷ (handles 71000000000 (record { type_ = added; worker = worker "a"; time = 0 }), λ n. none)
    ∷ []

start-Linked : Linked start new_capability_cache
unfolding lookup get new_capability_cache
start-Linked = record {
  valid = start-IsValid;
  sub = record { queue = []; failures = 0 };
  others = [];
  linked = refl;
  read = refl;
  mirrors = λ id. tt;
}

small : SmallFleet (start, new_capability_cache) history
unfolding step handle_event transition broadcast_all broadcast send check_stale sweep check_entry
    prune_subs prune_subs_loop lookup insert defaults
small = (omega arith, (omega arith, (omega arith, (omega arith, tt))))

cache_follows_example :
    Mirrors
      (turns (start, new_capability_cache) history).0
      (turns (start, new_capability_cache) history).1
cache_follows_example = cache_follows start new_capability_cache history start-Linked small
