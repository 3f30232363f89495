-- ===== src/Sift.antt =====
-- src/sift: devices, partitions and the accesses to their memories.
pub mod Vram
pub mod Access
pub mod Resolve
pub mod Xcc
pub mod Device
pub mod Engine
pub mod Capi
mod Tests
mod AccessTests
mod CapiTests
