-- ===== src/Settings.antt =====
-- Names of environment variables, and what they hold (internal/config/envcompat/envcompat.go).
pub mod Env
mod Tests
