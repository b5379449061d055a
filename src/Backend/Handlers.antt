-- ===== src/Backend/Handlers.antt =====
-- backend/backend.go: the web handlers, in the children Control, Values and Pages. A handler runs
-- behind withCache (Backend/Cache), with the user's id; its answer is collected in `written`.
pub mod Control
pub mod Values
pub mod Pages
pub mod History
pub mod Guards
pub mod Streams
pub mod Status
