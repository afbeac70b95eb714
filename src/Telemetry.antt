-- ===== src/Telemetry.antt =====
-- master/internal/telemetry: the runtime estimates and the manager of the workers' heartbeats.
pub mod Tau
pub mod Manager
