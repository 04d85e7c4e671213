-- ===== src/Router/Http.antt =====
-- crates/buran-router/src/http1.rs: the HTTP/1 side of the router.
pub mod Framing
pub mod Request
pub mod Accepted
pub mod Body
pub mod Response
pub mod Payload
pub mod Exchange
pub mod Writers
pub mod Connection
pub mod Tunnel
mod Tests
