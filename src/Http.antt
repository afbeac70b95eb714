-- ===== src/Http.antt =====
-- The HTTP interface of the master, master/internal/http.
pub mod Tasks
