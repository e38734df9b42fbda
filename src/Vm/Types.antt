-- ===== src/Vm/Types.antt =====
-- Access modes, fault types and TLB hints: Core/Kernel/Includes/Vm/Types.h. A value of one of these
-- enumerations is the number that its bits make.
use kush_os_rewrite.Base.{ℕ, Bool, not, ◌==◌}

-- `TestFlags`
abbrev pub test_flags : ℕ → Bool
test_flags x = not (x == 0)

-- `TlbInvalidateHint`
abbrev pub mask_invalidate : ℕ
mask_invalidate = 0xff

abbrev pub invalidate_local : ℕ
invalidate_local = 0x1

abbrev pub invalidate_remote : ℕ
invalidate_remote = 0x2

abbrev pub invalidate_all : ℕ
invalidate_all = 0x3

abbrev pub hint_unmapped : ℕ
hint_unmapped = 0x100
