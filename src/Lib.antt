-- ===== src/Lib.antt =====
-- InferMesh spreads inference requests over a fleet of workers: a router learns of workers from
-- discovery and from their connections, chooses one for each request and fails over from one to the
-- next. This library models the logic of the router and the worker that decides this.
--
-- The parts, and how they interact:
--   Protocol         pkg/protocol/worker.go: what a worker announces, and the events of discovery.
--   Registry         internal/registry/memory.go, config.go and registry.go: HandleEvent is
--                    handle_event, checkStale is check_stale, pruneSubs is prune_subs, and so on. Each
--                    call changes the map of workers and broadcasts events to the subscribers' channels.
--   CapabilityCache  pkg/router/capability_cache.go: reads the registry's events and keeps what the
--                    router's endpoints serve. Update is update, the loop of Start is on_events.
--   Scheduler        pkg/scheduler/scheduler.go: the filters, the weighted score (WeightedScorer.Score is
--                    score) and the choice of a worker (SelectWorker is select_worker).
--   Candidates       pkg/router/dispatch.go: the choice of a worker. buildCandidates is build_candidates,
--                    and selectWorkerExcluding is select_worker_excluding, which calls the Scheduler.
--   Dispatch         pkg/router/dispatch.go: dispatchWithFailover is dispatch_with_failover, and
--                    writeFailoverError is write_failover_error.
--   RequestTracker   pkg/router/request_tracker.go: the trace of the requests that Dispatch begins and
--                    finishes.
--   CallCounter      pkg/router/call_counter.go: calls of each model over a rolling window.
--   Breaker          pkg/worker/breaker.go: the circuit breaker and the retry loop of the worker.
--   Hub              pkg/router/ws_hub.go, ws_relay.go and ws_stats.go: the caps on the calls in flight and
--                    the calls over the relay. registerRelayCall is register_relay_call, and
--                    completeCall, completeStream and fail are finish_call.
--   Connections      pkg/router/ws_hub.go and ws_conn.go: the connections of workers, over the Hub's caps
--                    and the Registry. handleConn is handle_conn, shutdown is shut_down, and dispatch is
--                    dispatch of Connections/Calls.
--   Routing          pkg/router/routing_config.go and classifier.go: the configuration of the model
--                    "auto" and the tier of a request. buildAutoRoutingConfig is
--                    build_auto_routing_config, and Classify is classify.
--   Estimator        pkg/worker/concurrency_estimator.go: how many requests a worker takes at once.
--   Relay            cmd/relay/main.go: the broker between workers and a router. bufferWorkerMessage is
--                    buffer_worker_message, flushBufferedMessages is flush_buffered_messages.
--   Inference        pkg/worker/inference_stats.go: the throughput of each model over a rolling window.
--                    Record is record_sample, Snapshots is snapshots.
--   ModelHealth      pkg/worker/model_health.go: the health of a model. RecordHealthCheck is
--                    record_health_check.
--   QueueStats       pkg/router/queue_stats.go: the reservoir of queue waits and its percentiles.
--   Aliases          pkg/router/aliases.go: names for models, and the flag --model-alias of app/args.go.
--                    ParseModelAliases is parse_model_aliases, buildAliasConfig is build_alias_config.
--   Server           pkg/router/server.go, handlers_meta.go and handlers_chat.go: the settings of the
--                    router's server and its handlers, over the CapabilityCache, the CallCounter, the
--                    Registry, Routing and Aliases. handleInference is handle_inference, handleModelsList
--                    is models_list, handlePopularModels is popular_models, handleDevRegister is
--                    handle_dev_register.
--   WsClient         pkg/worker/ws_client.go: the worker's end of the Hub's connections.
--                    dispatchInferenceRequest is dispatch_inference_request, nextBackoff is next_backoff.
--   WorkerRun        pkg/worker/run.go: how a worker registers. RunWorker is run_worker, from the choice
--                    of a registration on, and ReloadConfig is reload_config.
--   Floats           the operations of float64 that the code uses, as an interface.
--   Prelude          shared names, lists, association lists and integers.
--
-- State is a record, and each method a function on it, which its mutex makes one step. Interleavings
-- and background goroutines are sequences of such steps, a data type Call with step and run. Where no
-- lock is held from a check to the change that relies on it (handleConn, handleDevRegister), the
-- function takes the state at the check and the state at the change. The end of a connection is one
-- step though it takes two locks in turn. A stream of the worker is a sequence of what the backend does
-- to its channels, of the branches that the select takes, and of the clock and the context. The time
-- of a call is an argument, in nanoseconds, a natural number; Go's int is an integer that does not
-- wrap. A Go map is an association list, and a loop over it follows the order of the list. Logging is
-- left out.
--
-- No definition needs fuel: the loops run over lists or count down attempts. The attempts of a
-- dispatch count down from the number that the caller gives, 1 at least. The registry's channels hold
-- 32 events.
--
-- Parameters stand for what is not code of this repository: float64, with the order of its numbers
-- and of its literals as named hypotheses; the formatting of a score; sort.Slice and
-- sort.SliceStable; the functions of package net, of package strings and of the regular expressions;
-- random draws; the clock; and the answers of workers to HTTP requests. Objects that goroutines
-- share (calls, connections and semaphores of the hub) stand in stores, and a reference is a place
-- there. In Dispatch a turn of the loop is given what it finds of the rest of the server: the choice
-- of selectWorkerExcluding, which is told the excluded workers, the answer of isRateLimited, the
-- error of the context, and the result of the worker's client. Dispatch/Routed puts the choice of
-- Candidates in its place.
--
-- Not modelled: the listeners, the sockets, the encoding of answers, discovery by mDNS,
-- certificates, hardware probes and the user interface, which are input and output. Left for later,
-- though it has logic of its own: the messages of the relay in the hub, the HTTP server of the
-- worker and its calls of the backend, the security middleware, and the desktop application but for
-- its flag of aliases.
pub mod Prelude
pub mod Floats
pub mod Protocol
pub mod Breaker
pub mod Scheduler
pub mod CallCounter
pub mod Registry
pub mod CapabilityCache
pub mod Candidates
pub mod Dispatch
pub mod RequestTracker
pub mod Aliases
pub mod Connections
pub mod Estimator
pub mod Hub
pub mod Inference
pub mod ModelHealth
pub mod QueueStats
pub mod Relay
pub mod Routing
pub mod Server
pub mod WorkerRun
pub mod WsClient
