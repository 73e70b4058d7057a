-- ===== src/Telemetry.antt =====
-- The telemetry backend (internal/telemetrybackend).
pub mod Batcher
pub mod Event
mod Tests
