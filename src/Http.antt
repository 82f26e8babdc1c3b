-- ===== src/Http.antt =====
-- modules/shared/src/utilhttp: the JSON responses and the request readers of the HTTP services.
pub mod Writer
pub mod Response
pub mod Request
mod Tests
