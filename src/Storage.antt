-- ===== src/Storage.antt =====
-- The files that the master keeps for its users, master/internal/storage, but for the upload.
pub mod Access
pub mod Files
pub mod Audited
pub mod Confined
