-- ===== src/Vm.antt =====
-- The machine-independent memory code: Core/Kernel/Includes/Vm.
pub mod Types
pub mod Mode
pub mod RefCount
pub mod Map
pub mod PageAllocator
pub mod Manager
pub mod Zone
pub mod Tests
