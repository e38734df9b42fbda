-- ===== src/Runtime/String.antt =====
-- Memory routines: Core/Kernel/Sources/Runtime/String.cpp.
-- Memory is a function from addresses to bytes. Blocks do not wrap around the end of the addresses,
-- as C++ asks of pointers, so the pointers are numbers.
pub mod Moves
pub mod Xor
use kush_os_rewrite.Base.{ℕ, zero, suc, ◌+◌, ◌-◌, ◌*◌, ◌/◌, ◌%◌, Bool, true, false, not, ◌&&◌, ◌||◌}
use kush_os_rewrite.Base.{
  bit_and, bit_or, bit_xor, u8, ◌==◌, ltb, leb, if◌then◌else◌, Outcome, done, panic, stuck, ◌>>=◌,
}

abbrev pub Bytes : Type 0
Bytes = ℕ → ℕ

-- `*a = v`
abbrev pub put : Bytes → ℕ → ℕ → Bytes
put mem a v b = if b == a then v else mem b

-- `*(word *)dst = *(const word *)src`
abbrev pub put_word : Bytes → ℕ → ℕ → Bytes
put_word mem dst src b = if leb dst b && ltb b (dst + 8) then mem (src + (b - dst)) else mem b

unfoldable pub set_bytes : ℕ → Bytes → ℕ → ℕ → Bytes
set_bytes zero mem d c = mem
set_bytes (suc n) mem d c = set_bytes n (put mem d c) (d + 1) c

-- `memset`
unfoldable pub memset : Bytes → ℕ → ℕ → ℕ → Bytes
memset mem dst c n = if not (n == 0) then set_bytes n mem dst (u8 c) else mem

-- `TLOOP(*dst++ = *src++)` and `TLOOP` of words going up, after t rounds
unfoldable pub bytes_up : ℕ → Bytes → ℕ → ℕ → Bytes
bytes_up zero mem dst src = mem
bytes_up (suc t) mem dst src = bytes_up t (put mem dst (mem src)) (dst + 1) (src + 1)

unfoldable pub words_up : ℕ → Bytes → ℕ → ℕ → Bytes
words_up zero mem dst src = mem
words_up (suc t) mem dst src = words_up t (put_word mem dst src) (dst + 8) (src + 8)

-- The same going down from the ends of the blocks.
unfoldable pub bytes_down : ℕ → Bytes → ℕ → ℕ → Bytes
bytes_down zero mem dst src = mem
bytes_down (suc t) mem dst src =
    bytes_down t (put mem (dst - 1) (mem (src - 1))) (dst - 1) (src - 1)

unfoldable pub words_down : ℕ → Bytes → ℕ → ℕ → Bytes
words_down zero mem dst src = mem
words_down (suc t) mem dst src = words_down t (put_word mem (dst - 8) (src - 8)) (dst - 8) (src - 8)

-- `TLOOP1`: a `do … while(--t)`, which does not end in time if it starts with 0.
unfoldable pub at_least_once : ℕ → Bytes → Outcome Bytes
at_least_once t after = if t == 0 then stuck else done after

-- `(t | (long)dst) & wmask`
abbrev pub unaligned : ℕ → ℕ → Bool
unaligned src dst = not (bit_and (bit_or src dst) 7 == 0)

-- `(t ^ (long)dst) & wmask`
abbrev pub differ_low : ℕ → ℕ → Bool
differ_low src dst = not (bit_and (bit_xor src dst) 7 == 0)

-- Whole words, then the bytes that are left.
unfoldable pub tail_up : Bytes → ℕ → ℕ → ℕ → Bytes
tail_up mem dst src length =
    bytes_up (bit_and length 7) (words_up (length / 8) mem dst src) (dst + length / 8 * 8)
      (src + length / 8 * 8)

unfoldable pub tail_down : Bytes → ℕ → ℕ → ℕ → Bytes
tail_down mem dst src length =
    bytes_down (bit_and length 7) (words_down (length / 8) mem dst src) (dst - length / 8 * 8)
      (src - length / 8 * 8)

-- The forward copy of `memmove` and `memcpy`, and how many bytes it copies to align the pointers.
abbrev pub head_up : ℕ → ℕ → ℕ → ℕ
head_up dst src length = if differ_low src dst || ltb length 8 then length else 8 - bit_and src 7

unfoldable pub copy_up : Bytes → ℕ → ℕ → ℕ → Outcome Bytes
copy_up mem dst src length =
    if unaligned src dst
    then (at_least_once (head_up dst src length) (bytes_up (head_up dst src length) mem dst src)
        >>= λ mem'. done (
            tail_up mem' (dst + head_up dst src length) (src + head_up dst src length)
              (length - head_up dst src length)))
    else done (tail_up mem dst src length)

-- The backward copy of `memmove`, from the ends of the blocks.
abbrev pub head_down : ℕ → ℕ → ℕ → ℕ
head_down dst src length = if differ_low src dst || leb length 8 then length else bit_and src 7

unfoldable pub copy_down : Bytes → ℕ → ℕ → ℕ → Outcome Bytes
copy_down mem dst src length =
    if unaligned src dst
    then (at_least_once (head_down dst src length)
          (bytes_down (head_down dst src length) mem dst src)
        >>= λ mem'. done (
            tail_down mem' (dst - head_down dst src length) (src - head_down dst src length)
              (length - head_down dst src length)))
    else done (tail_down mem dst src length)

-- `memmove`
unfoldable pub memmove : Bytes → ℕ → ℕ → ℕ → Outcome Bytes
memmove mem dst src length =
    if length == 0 || dst == src
    then done mem
    else if ltb dst src
    then copy_up mem dst src length
    else copy_down mem (dst + length) (src + length) length

-- `memcpy`, which panics if the blocks overlap.
unfoldable pub memcpy : Bytes → ℕ → ℕ → ℕ → Outcome Bytes
memcpy mem dst src length =
    if length == 0 || dst == src
    then done mem
    else if ltb dst src && ltb src (dst + length) || ltb src dst && ltb dst (src + length)
    then panic
    else copy_up mem dst src length

-- `strncpy`: the characters up to a NUL, then NULs. `s` is the source as it is read.
unfoldable pub strncpy : ℕ → Bytes → ℕ → ℕ → Bytes
unfolding set_bytes
strncpy zero mem d s = mem
strncpy (suc n) mem d s =
    let rest = strncpy n (put mem d (mem s)) (d + 1) (s + 1) in
    if mem s == 0 then set_bytes n (put mem d (mem s)) (d + 1) 0 else rest
