-- ===== src/Configuration.antt =====
-- src/common/config/config.cpp: where the client and the server find each other.
pub mod Load
pub mod Says
mod Tests
