-- ===== src/Runtime.antt =====
-- The runtime routines of Core/Kernel/Sources/Runtime.
pub mod String
pub mod Tests
