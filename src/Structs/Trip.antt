-- ===== src/Structs/Trip.antt =====
-- That what is written of a struct is read back.
pub mod Vectors
pub mod Areas
pub mod Parts
pub mod ActionStates
pub mod ActionInfos
pub mod Layers
pub mod Events
pub mod Frames
pub mod Places
pub mod Images
pub mod Eyes
