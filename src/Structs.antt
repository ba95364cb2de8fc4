-- ===== src/Structs.antt =====
-- Structs of OpenXR: their functions in src/common/serialization/serializer.cpp and deserializer.cpp.
pub mod Rows
pub mod Vectors
pub mod Areas
pub mod Parts
pub mod ActionStates
pub mod ActionInfos
pub mod Layers
pub mod Events
pub mod Frames
pub mod Places
pub mod Images
pub mod Eyes
pub mod Trip
pub mod Shared
mod Tests
