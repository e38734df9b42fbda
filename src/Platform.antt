-- ===== src/Platform.antt =====
-- Platform code for x86_64 (Core/Kernel/Platforms/x86_64/pc-uefi.platform/Sources).
pub mod Layout
pub mod PhysicalMap
pub mod PageTable
pub mod Backtrace
pub mod Tests
