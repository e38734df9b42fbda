-- ===== src/FbCons.antt =====
-- The framebuffer console: Core/Kernel/Platforms/Shared/FbCons.
pub mod Color
pub mod Console
pub mod Tests
