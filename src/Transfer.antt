-- ===== src/Transfer.antt =====
-- The transfer of files by the data-plane client (internal/api/fs).
pub mod Parts
mod Tests
