-- ===== src/Arch.antt =====
-- The descriptor tables of the processor: Sources/Arch of the platform.
pub mod Gdt
pub mod Idt
pub mod Tests
