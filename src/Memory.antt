-- ===== src/Memory.antt =====
-- The physical memory allocator: Core/Kernel/Sources/Memory and Core/Kernel/Includes/Memory.
pub mod Bitmap
pub mod Region
pub mod Pool
pub mod PhysicalAllocator
pub mod Tests
