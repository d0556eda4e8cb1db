-- ===== src/Router.antt =====
-- The routing tree of web/router.go: its nodes, registration and search, and what they guarantee.
pub mod Node
pub mod Register
pub mod Search
pub mod RoundTrip
pub mod Range
pub mod Dispatch
mod Tests
