-- ===== src/Platform.antt =====
-- internal/platform: the configuration, and the verification of tokens. The database pool, logging and
-- telemetry are outside.
pub mod Config
pub mod Auth
