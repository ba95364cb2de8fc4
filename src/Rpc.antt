-- ===== src/Rpc.antt =====
-- Remote calls: src/client/rpc.cpp with src/server/function_dispatch.cpp.
pub mod Pieces
pub mod Call
pub mod Transparent
pub mod Shapes
pub mod Ends
pub mod Sessions
pub mod Swapchains
pub mod Spaces
pub mod Actions
pub mod Inputs
pub mod Sources
pub mod Systems
pub mod Strings
pub mod ViewConfigurations
pub mod Views
pub mod Others
pub mod Bd
pub mod Ext
pub mod FbTrackers
pub mod FbPassthrough
pub mod FbMeshes
pub mod HtcMl
pub mod Meta
pub mod Msft
pub mod Varjo
pub mod Agree
pub mod Enumerate
mod Tests
