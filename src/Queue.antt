-- ===== src/Queue.antt =====
-- modules/queue/src
pub mod Interceptor
pub mod Messages
pub mod Wire
pub mod Server
pub mod Route
pub mod Client
pub mod Main
mod Tests
