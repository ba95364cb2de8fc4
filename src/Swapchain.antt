-- ===== src/Swapchain.antt =====
-- The client's swapchains and their sessions: src/modules/vulkan/client.
pub mod State
pub mod Defs
pub mod Order
pub mod Spec
pub mod Refine
pub mod Store
pub mod Sessions
pub mod Linked
pub mod Calls
pub mod Reached
pub mod Single
mod Tests
mod StoreTests
