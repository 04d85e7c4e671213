-- ===== src/Router.antt =====
-- The HTTP router: crates/buran-router/src.
pub mod Ws
pub mod Uri
pub mod Template
pub mod Matching
pub mod Dispatch
pub mod Routes
pub mod Http
pub mod Static
mod Tests
