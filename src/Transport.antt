-- ===== src/Transport.antt =====
-- Messages over a stream: src/common/transport/transport_impl.h and transport_impl.cpp.
pub mod Frame
pub mod Frames
pub mod State
pub mod Dispatch
pub mod Awaits
pub mod Handles
pub mod Reach
pub mod Race
mod Tests
