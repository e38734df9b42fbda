-- ===== src/Vm/RefCount.antt =====
-- Reference counts: Core/Kernel/Includes/Runtime/RefCountable.h. A count is a 64-bit number, and it
-- wraps around as the atomic operations do.
pub mod Life
pub mod Tests
use kush_os_rewrite.Base.{ℕ, ◌+◌, Bool, ◌==◌, u64, sub64}

-- `retain`: the new count.
abbrev pub retain : ℕ → ℕ
retain count = u64 (count + 1)

-- `release`: the new count, and whether the object is deleted.
abbrev pub release : ℕ → ℕ × Bool
release count = (sub64 count 1, sub64 count 1 == 0)
