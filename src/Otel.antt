-- ===== src/Otel.antt =====
-- modules/shared/src/utilotel: telemetry for the services.
pub mod Init
pub mod Startup
pub mod Flush
pub mod Resource
pub mod Middleware
pub mod SpanNames
mod Tests
