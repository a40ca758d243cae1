-- ===== src/Handler.antt =====
-- internal/relay/handler.go: one connection from the request to the end of its read loop.
pub mod Effects
pub mod Bridge
pub mod Phone
pub mod Routing
pub mod Policies
pub mod Write
pub mod Connections
pub mod Lifecycle
