-- ===== src/Boot.antt =====
-- Start-up of the platform: Sources/Boot/Entry.cpp and Sources/Io/Console.cpp of the platform.
pub mod Memory
pub mod Kernel
pub mod Remap
pub mod CommandLine
pub mod Tests
