-- ===== src/Server.antt =====
-- The server: src/server/server.cpp.
pub mod Handlers
pub mod Lifecycle
mod Tests
