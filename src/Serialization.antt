-- ===== src/Serialization.antt =====
-- Serialization: include/xrtransport/serialization/serializer.h and deserializer.h (the templates
-- and contexts), and src/common/serialization.
pub mod Stream
pub mod Bytes
pub mod Pointer
pub mod Pointers
pub mod Chain
pub mod Chains
pub mod ChainTrip
pub mod XrArray
pub mod XrArrays
pub mod Times
pub mod Word
pub mod Wire
pub mod FrameEnd
pub mod Samples
mod Tests
