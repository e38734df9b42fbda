-- ===== src/Runtime/Tests.antt =====
-- The copies of String.cpp on a small block.
use kush_os_rewrite.Base.{arith, ◌≡◌, panic}
use kush_os_rewrite.Runtime.String.{Bytes, memmove, memcpy}
use kush_os_rewrite.Runtime.String.Moves.{Copies, memmove-Copies, memcpy_overlap}

-- Each byte holds its address.
abbrev addresses : Bytes
addresses a = a

memmove-Copies_example : Copies (memmove addresses 0x1003 0x1001 21) addresses 0x1003 0x1001 21
memmove-Copies_example = memmove-Copies addresses 0x1003 0x1001 21

memcpy_overlap_example : memcpy addresses 0x1000 0x1008 64 ≡ panic
memcpy_overlap_example =
    memcpy_overlap addresses 0x1000 0x1008 64 (λ e. absurd (omega (arith, e))) (omega arith)
      (omega arith)
