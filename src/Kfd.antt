-- ===== src/Kfd.antt =====
-- src/kfd: the nodes of the KFD topology.
pub mod Field
pub mod Properties
pub mod Lines
pub mod Rows
pub mod Names
pub mod Printed
pub mod File
pub mod Override
mod Tests
mod OverrideTests
