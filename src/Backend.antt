-- ===== src/Backend.antt =====
-- The package `backend`: the cache of users, the web handlers, and the background loops.
pub mod UserId
pub mod Sound
pub mod State
pub mod Cache
pub mod Loops
pub mod Start
pub mod Helpers
pub mod Handlers
pub mod Router
pub mod Server
