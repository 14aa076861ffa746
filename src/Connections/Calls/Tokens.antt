-- ===== src/Connections/Calls/Tokens.antt =====
-- The connection semaphores over the histories of the hub: `acquireConn` and `SetMaxConnections` of
-- pkg/router/ws_hub.go, `releaseSlot` of ws_conn.go.
use infermesh.Prelude.{Option}
use infermesh.Registry.{Registry}
