-- ===== src/Auth.antt =====
-- modules/auth/src: the login service.
pub mod Domain
pub mod Users
pub mod Validation
pub mod Login
pub mod Chi
pub mod Route
pub mod Env
pub mod Main
mod Tests
