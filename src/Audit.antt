-- ===== src/Audit.antt =====
-- modules/audit/src
pub mod Interceptor
pub mod Messages
pub mod Wire
pub mod Server
pub mod Route
pub mod Client
pub mod Main
pub mod Worker
pub mod Store
pub mod QueueClient
mod Tests
