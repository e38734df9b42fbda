-- ===== src/Idlc.antt =====
-- The interface compiler: tools/idlc/src.
pub mod Interface
pub mod Builder
pub mod Wire
pub mod Rpc
