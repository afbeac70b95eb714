-- ===== src/Server.antt =====
-- The master's server, master/internal/server/master_server.go. `State` has the data, the other
-- modules a group of handlers each, with their theorems in modules below them.
pub mod State
pub mod Evolution
pub mod Registry
pub mod Reconcile
pub mod Assign
pub mod Queue
pub mod Complete
pub mod Cancel
pub mod Events
pub mod Snapshot
pub mod Reconnect
