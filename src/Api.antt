-- ===== src/Api.antt =====
-- internal/api: the HTTP endpoints.
pub mod Http
pub mod Address
pub mod Server
pub mod Register
pub mod Send
pub mod Admin
pub mod Router
pub mod Runs
pub mod Threads
mod Tests
