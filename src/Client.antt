-- ===== src/Client.antt =====
-- The client's own state and protocol: src/client, and the server's side of what they agree on.
pub mod Names
pub mod Functions
pub mod Entry
pub mod Enabled
pub mod Creation
pub mod Given
pub mod Extensions
pub mod Offered
pub mod Sync
pub mod Clock
pub mod Handshake
pub mod Agreement
pub mod Poll
pub mod Polling
mod Tests
