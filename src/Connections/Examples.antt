-- ===== src/Connections/Examples.antt =====
-- A hub with a worker that connects twice, and the theorems about it.
use infermesh.Prelude.{
  ℕ, ◌≡◌, refl, String, true, false, Option, none, some, List, [], ◌∷◌, pos, lookup, insert, delete,
}
use infermesh.Protocol.{WorkerInfo}
use infermesh.Registry.{defaults, get, handle_event}
use infermesh.Hub.{new_hub, max_in_flight_for}
use infermesh.Connections.{
  Net, WsHub, Connection, register, heartbeat, check_peer, check_register, handle_conn,
}
use infermesh.Connections.Calls.{
  Step, sets_max_connections, supersedes, admits, releases, adds, receives, new_ws_hub, step, run,
}
use infermesh.Connections.Calls.Live.{IsLive}
use infermesh.Connections.Calls.Open.{run-new_ws_hub-IsLive}
use infermesh.Connections.Calls.Identity.{ip_of, handle_conn-ip_of}

-- Floating-point values play no part here.
abbrev worker : String → String → WorkerInfo ℕ
worker id ip = record {
  id = id;
  hostname = "host";
  ip = ip;
  port = pos 8081;
  capabilities = record {
    gpu = record {
      vendor = "";
      model = "";
      compute_core = pos 0;
      total_vram = pos 0;
      free_vram = pos 0;
    };
    models = [];
    engines = [];
    vram = record { total_mb = pos 0; free_mb = pos 0 };
    system = record { total_mb = pos 0; free_mb = pos 0 };
    allowed_models = [];
    excluded_models = [];
    concurrency_cap = pos 2;
    threads = pos 0;
    inference_stats = [];
  };
  status = "available";
  version = "1";
  transport = "";
  api_key = "";
  last_seen = 0;
}

-- Addresses are written without a port, and none is a loopback.
abbrev net : Net String
net = record {
  split_host_port = λ s. none;
  parse_ip = λ s. some s;
  is_loopback = λ s. false;
  is_ip4 = λ s. true;
  ip4_loopback = "127.0.0.1";
  ip_string = λ s. s;
}

abbrev empty : WsHub ℕ
empty = new_ws_hub "" (record { cfg = defaults; workers = []; subs = [] })

-- The worker connects, connects again, and its first connection is released and ends.
abbrev steps : List (Step ℕ)
steps =
    sets_max_connections (pos 1)
    ∷ admits 5 (worker "a" "10.0.0.1")
    ∷ adds "call" 0
    ∷ supersedes "a"
    ∷ admits 6 (worker "a" "10.0.0.1")
    ∷ releases 0
    ∷ receives 7 1 (heartbeat (worker "" "10.0.0.1"))
    ∷ []

abbrev after : WsHub ℕ
after = run empty steps

run-new_ws_hub-IsLive_example : IsLive after
run-new_ws_hub-IsLive_example =
    run-new_ws_hub-IsLive "" (record { cfg = defaults; workers = []; subs = [] }) steps

known : ip_of (get "a" after.registry) ≡ some "10.0.0.1"
unfolding get lookup insert delete run step new_ws_hub new_hub max_in_flight_for handle_event
known = refl

-- Between the check and the admission the slot of the worker's connection is given back.
abbrev later : WsHub ℕ
later = step after (releases 1)

still_known : ip_of (get "a" later.registry) ≡ some "10.0.0.1"
unfolding get lookup insert delete run step new_ws_hub new_hub max_in_flight_for handle_event
still_known = refl

handle_conn-ip_of_example :
    ip_of (get "a" (handle_conn net 8 (register (worker "a" "")) "10.0.0.1" after later).1.registry)
    ≡ some "10.0.0.1"
handle_conn-ip_of_example =
    handle_conn-ip_of net 8 (register (worker "a" "")) "10.0.0.1" "a" "10.0.0.1" after later known
      still_known

-- Two peers claim an id that is free, and both are checked before either is admitted.
abbrev first_peer : WsHub ℕ
first_peer = (handle_conn net 5 (register (worker "a" "")) "10.0.0.1" empty empty).1

abbrev second_peer : WsHub ℕ
second_peer = (handle_conn net 6 (register (worker "a" "")) "10.0.0.2" empty first_peer).1

second_peer_wins :
    (ip_of (get "a" first_peer.registry) ≡ some "10.0.0.1")
    × (ip_of (get "a" second_peer.registry) ≡ some "10.0.0.2")
unfolding handle_conn check_register check_peer get lookup insert delete new_ws_hub new_hub
    max_in_flight_for handle_event
second_peer_wins = (refl, refl)

abbrev connection : Option ℕ → Connection ℕ
connection slot = record {
  id = "a";
  worker = worker "a" "10.0.0.1";
  closed = false;
  slot = slot;
  pending = [];
  rejected_429 = 0;
  rejected_504 = 0;
}

-- The first connection was superseded by the second and has not ended.
abbrev twice : WsHub ℕ
twice = record {
  api_key = "";
  caps = new_hub;
  registry = record { cfg = defaults; workers = []; subs = [] };
  conn_sem = some 0;
  sems = record { cap = 1; used = 1 } ∷ [];
  conns = ("a", 1) ∷ [];
  connections = connection none ∷ connection (some 0) ∷ [];
  calls = [];
}
