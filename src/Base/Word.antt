-- ===== src/Base/Word.antt =====
-- 64-bit words as native numbers: wrapping, shifts, complement, and the lowest set bit.
use Prim.Native.Nat.{ℕ, zero, suc, ◌+◌, ◌-◌, ◌/◌, ◌%◌, ◌^◌}
use mathlib.Core.Bool.{Bool}
use kush_os_rewrite.Base.Tests.{◌==◌, leb, if◌then◌else◌}

abbrev pub u64 : ℕ → ℕ
u64 n = n % 2 ^ 64

abbrev pub u32 : ℕ → ℕ
u32 n = n % 2 ^ 32

abbrev pub u16 : ℕ → ℕ
u16 n = n % 2 ^ 16

abbrev pub u8 : ℕ → ℕ
u8 n = n % 2 ^ 8

-- `a - b` of two 64-bit words
abbrev pub sub64 : ℕ → ℕ → ℕ
sub64 a b = (a + 2 ^ 64 - b) % 2 ^ 64

-- An `int` is its 32-bit word: whether it is negative, and its value as a `size_t`.
abbrev pub is_negative : ℕ → Bool
is_negative a = leb (2 ^ 31) a

abbrev pub to_size : ℕ → ℕ
to_size a = if is_negative a then a + (2 ^ 64 - 2 ^ 32) else a

-- `~a`
abbrev pub not64 : ℕ → ℕ
not64 a = 2 ^ 64 - 1 - a

-- `1ULL << k`, for k below 64
abbrev pub bit64 : ℕ → ℕ
bit64 k = 2 ^ k

-- Bit i of a word.
unfoldable pub test_bit : ℕ → ℕ → Bool
test_bit a zero = a % 2 == 1
test_bit a (suc i) = test_bit (a / 2) i

-- `__builtin_ffsll` on a word of w bits: one more than the index of the lowest set bit, or 0.
unfoldable pub ffs_width : ℕ → ℕ → ℕ
ffs_width zero v = 0
ffs_width (suc w) v =
    let rest = ffs_width w (v / 2) in if v % 2 == 1 then 1 else if rest == 0 then 0 else rest + 1

unfoldable pub ffs64 : ℕ → ℕ
unfolding ffs_width
ffs64 v = ffs_width 64 v
