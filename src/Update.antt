-- ===== src/Update.antt =====
-- The update of the program's own binary (internal/update/update.go).
pub mod Version
pub mod Install
mod Tests
