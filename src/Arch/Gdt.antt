-- ===== src/Arch/Gdt.antt =====
-- The global descriptor table: Sources/Arch/Gdt.cpp, Gdt.h and GdtTypes.h of the platform. A packed
-- descriptor is the 64-bit words that its fields make, lowest first, and the table is the list of its
-- 64 words; a write past its end is `wild`. `lgdt` and `ltr` load what the functions here return.
pub mod Decode
use kush_os_rewrite.Base.{
  ℕ, zero, suc, ◌+◌, ◌*◌, ◌/◌, ◌-◌, ◌%◌, ◌^◌, Bool, true, false, not, ◌&&◌, List, [], ◌∷◌,
  replicate, length, set, bit_and, bit_or, u8, u16, u32, ◌==◌, ltb, leb, Outcome, done, require,
  in_bounds, ◌>>=◌, ◌>>◌,
}

-- The segment selectors
abbrev pub kern_code_seg : ℕ
kern_code_seg = 0x08

abbrev pub kern_data_seg : ℕ
kern_data_seg = 0x10

abbrev pub user_code_seg : ℕ
user_code_seg = 0x18

abbrev pub user_data_seg : ℕ
user_data_seg = 0x20

abbrev pub user_code64_seg : ℕ
user_code64_seg = 0x28

abbrev pub first_tss : ℕ
first_tss = 0x30

abbrev pub gdt_size : ℕ
gdt_size = 64

abbrev pub tss_slots : ℕ
tss_slots = 58

-- `GdtDescriptor`
pub record GdtDescriptor : Type 0 where
  pub limit_low : ℕ
  pub base_low : ℕ
  pub base_middle : ℕ
  pub access : ℕ
  pub granularity : ℕ
  pub base_high : ℕ

-- The packed fields of a descriptor as its 64-bit word.
abbrev pub word : GdtDescriptor → ℕ
word d =
    d.limit_low
    + d.base_low * 2 ^ 16
    + d.base_middle * 2 ^ 32
    + d.access * 2 ^ 40
    + d.granularity * 2 ^ 48
    + d.base_high * 2 ^ 56

-- The fields that `Set32` writes.
abbrev pub descriptor32 : ℕ → ℕ → ℕ → ℕ → GdtDescriptor
descriptor32 base limit flags gran = record {
  limit_low = bit_and limit 0xffff;
  base_low = bit_and base 0xffff;
  base_middle = bit_and (base / 2 ^ 16) 0xff;
  access = flags;
  granularity = bit_or (bit_and (limit / 2 ^ 16) 0x0f) (bit_and gran 0xf0);
  base_high = bit_and (base / 2 ^ 24) 0xff;
}

-- `Set32`
unfoldable pub set32 : List ℕ → ℕ → ℕ → ℕ → ℕ → ℕ → Outcome (List ℕ)
set32 gdt num base limit flags gran = do
  require (leb num (user_code64_seg / 8))
  in_bounds (ltb num (length gdt))
  done (set gdt num (word (descriptor32 base limit flags gran)))

-- The two words of the `GdtDescriptor64` that `Set64` builds: its first eight bytes have the places
-- of a `GdtDescriptor`; then come `base3` and the reserved bits, which are 0.
abbrev pub high_word : ℕ → ℕ
high_word base = u32 (base / 2 ^ 32)

-- `Set64`
unfoldable pub set64 : List ℕ → ℕ → ℕ → ℕ → ℕ → ℕ → Outcome (List ℕ)
set64 gdt num base limit flags gran = do
  require (leb (user_code64_seg / 8) num)
  in_bounds (ltb (num + 1) (length gdt))
  done (set (set gdt num (word (descriptor32 base limit flags gran))) (num + 1) (high_word base))

-- `sizeof(Tss)`, and `InstallTss`
abbrev pub tss_bytes : ℕ
tss_bytes = 104

unfoldable pub install_tss : List ℕ → ℕ → ℕ → Outcome (List ℕ)
unfolding set64
install_tss gdt i tss = set64 gdt (i * 2 + first_tss / 8) tss (tss_bytes - 1) 0x89 0

-- `ActivateTask`: the selector that is loaded.
abbrev pub activate_task : ℕ → ℕ
activate_task task = u16 (task * 2 * 0x8 + first_tss)

-- `Load`: the length that is loaded.
unfoldable pub load : ℕ → Outcome ℕ
load num_tss = do
  require (not (num_tss == 0) && ltb num_tss tss_slots)
  done (u16 (first_tss + num_tss * 16 - 1))

-- `Init`, with the address of the first TSS.
unfoldable pub init : ℕ → Outcome (List ℕ)
unfolding set32 install_tss
init tss = do
  g1 ← set32 (replicate gdt_size 0) (kern_code_seg / 8) 0 0xffffffff 0x9a 0xaf
  g2 ← set32 g1 (kern_data_seg / 8) 0 0xffffffff 0x92 0xcf
  g3 ← set32 g2 (user_code_seg / 8) 0 0xffffffff 0xfa 0xaf
  g4 ← set32 g3 (user_code64_seg / 8) 0 0xffffffff 0xfa 0xaf
  g5 ← set32 g4 (user_data_seg / 8) 0 0xffffffff 0xf2 0xcf
  install_tss g5 0 tss
