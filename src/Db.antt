-- ===== src/Db.antt =====
-- Checks of the database commands (internal/db).
pub mod Dotenv
pub mod Paging
pub mod Statement
pub mod Validate
mod Tests
