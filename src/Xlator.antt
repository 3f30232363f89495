-- ===== src/Xlator.antt =====
-- src/xlator/xlator.c: translation of virtual addresses by a walk of the GPU's page tables.
pub mod Types
pub mod Fields
pub mod Registers
pub mod Context
pub mod Walk
pub mod Cache
pub mod Overlap
pub mod Range
pub mod Setup
pub mod Process
pub mod Vmid
pub mod Translate
mod Tests
mod ProcessTests
mod TranslateTests
