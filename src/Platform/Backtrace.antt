-- ===== src/Platform/Backtrace.antt =====
-- The symbols of the kernel: `ParseKernelElf` and `Symbolicate` of Sources/Util/Backtrace.cpp of the
-- platform, with the structures of Sources/Arch/Elf.h. Memory is what each address holds when it is
-- read as one of the structures; the bounds of the kernel's text are parameters, and instead of a
-- formatted text there are the address of the name and the offset. A null pointer is 0.
pub mod Nearest
pub mod Tables
pub mod Tests
use kush_os_rewrite.Base.{
  ℕ, zero, suc, ◌+◌, ◌*◌, ◌/◌, ◌%◌, Bool, true, false, not, ◌&&◌, ◌||◌, sub64, ◌==◌, ltb,
  if◌then◌else◌, Option, none, some,
}

-- `Elf64_Ehdr`, `Elf64_Shdr` and `Elf64_Sym`: the fields that are read.
pub record Header : Type 0 where
  pub ident : ℕ → ℕ
  pub sec_hdr_off : ℕ
  pub sec_hdr_size : ℕ
  pub num_sec_hdr : ℕ

pub record Section : Type 0 where
  pub sh_type : ℕ
  pub sh_offset : ℕ
  pub sh_size : ℕ
  pub sh_link : ℕ

pub record Symbol : Type 0 where
  pub st_name : ℕ
  pub st_info : ℕ
  pub st_value : ℕ

pub record Memory : Type 0 where
  pub header_at : ℕ → Header
  pub section_at : ℕ → Section
  pub symbol_at : ℕ → Symbol

-- `gSymtab`, `gSymtabLen`, `gStrtab` and `gStrtabLen`
pub record State : Type 0 where
  pub symtab : ℕ
  pub symtab_len : ℕ
  pub strtab : ℕ
  pub strtab_len : ℕ

-- The magic bytes are those of an ELF file.
abbrev pub is_elf : Header → Bool
is_elf header =
    header.ident 0 == 0x7f
    && header.ident 1 == 0x45
    && header.ident 2 == 0x4c
    && header.ident 3 == 0x46

-- `sizeof(Elf64_Shdr)` and `sizeof(Elf64_Sym)`
abbrev pub section_size : ℕ
section_size = 64

abbrev pub symbol_size : ℕ
symbol_size = 24

-- The i-th section header, and the i-th symbol of a table.
abbrev pub section : Memory → ℕ → ℕ → Section
section mem base i =
    mem.section_at (base + (mem.header_at base).sec_hdr_off + (mem.header_at base).sec_hdr_size * i)

abbrev pub symbol : Memory → ℕ → ℕ → Symbol
symbol mem symtab i = mem.symbol_at (symtab + i * symbol_size)

-- The loop over the sections goes on, or `ParseKernelElf` returns.
pub data Next : Type 0 where
  go_on leave : State → Next

unfoldable pub parse_section : Memory → ℕ → State → Section → Next
parse_section mem base s shdr =
    if not (shdr.sh_type == 2)
    then go_on s
    else if ltb (mem.header_at base).num_sec_hdr shdr.sh_link || shdr.sh_link == 0
    then leave (record s { symtab = base + shdr.sh_offset; symtab_len = shdr.sh_size })
    else go_on (record {
      symtab = base + shdr.sh_offset;
      symtab_len = shdr.sh_size;
      strtab = base + (section mem base shdr.sh_link).sh_offset;
      strtab_len = (section mem base shdr.sh_link).sh_size;
    })

-- The loop from section i on, with n sections left.
unfoldable pub parse_from : Memory → ℕ → ℕ → ℕ → State → State
parse_from mem base zero i s = s
parse_from mem base (suc n) i s = elim (parse_section mem base s (section mem base i)) [
  | leave s' ↦ s'
  | go_on s' ↦ parse_from mem base n (i + 1) s'
]

-- `ParseKernelElf`
unfoldable pub parse_kernel_elf : Memory → State → ℕ → ℕ → State
parse_kernel_elf mem s base len =
    if base == 0 && len == 0
    then record { symtab = 0; symtab_len = 0; strtab = 0; strtab_len = 0 }
    else if not (is_elf (mem.header_at base))
    then s
    else if ltb section_size (mem.header_at base).sec_hdr_size
    then s
    else parse_from mem base (mem.header_at base).num_sec_hdr 0 s

-- `ELF64_ST_TYPE(sym.st_info) == STT_FUNC`
abbrev pub is_function : Symbol → Bool
is_function sym = sym.st_info % 16 == 2

-- One turn of the loop over the symbols, on `closest` and `closestDiff`.
unfoldable pub nearer : ℕ → Symbol → Option (Symbol × ℕ) → Option (Symbol × ℕ)
nearer pc sym closest = if not (is_function sym) then closest else elim closest [
  | none ↦ some (sym, sub64 pc sym.st_value)
  | some c ↦ if ltb (sub64 pc sym.st_value) c.1 then some (sym, sub64 pc sym.st_value) else some c
]

-- The loop from symbol i on, with n left.
unfoldable pub search : Memory → ℕ → ℕ → ℕ → ℕ → Option (Symbol × ℕ) → Option (Symbol × ℕ)
search mem symtab pc zero i closest = closest
search mem symtab pc (suc n) i closest =
    search mem symtab pc n (i + 1) (nearer pc (symbol mem symtab i) closest)

-- How `Symbolicate` ends: 0, or 1 with the address of the name and the offset.
pub data Symbolicated : Type 0 where
  no_symbol : Symbolicated
  at_symbol : ℕ → ℕ → Symbolicated

-- `pc` is in the text, and the tables are there.
abbrev pub in_text : ℕ → ℕ → ℕ → Bool
in_text text_start text_end pc = not (ltb pc text_start || ltb text_end pc)

abbrev pub has_tables : State → Bool
has_tables s = not (s.symtab == 0 || s.symtab_len == 0 || s.strtab == 0 || s.strtab_len == 0)

abbrev pub num_syms : State → ℕ
num_syms s = s.strtab_len / symbol_size

-- `Symbolicate`
unfoldable pub symbolicate : Memory → ℕ → ℕ → State → ℕ → Symbolicated
symbolicate mem text_start text_end s pc =
    if not (in_text text_start text_end pc)
    then no_symbol
    else if not (has_tables s)
    then no_symbol
    else elim (search mem s.symtab pc (num_syms s) 0 none) [
      | none ↦ no_symbol
      | some c ↦ at_symbol (s.strtab + c.0.st_name) (sub64 pc c.0.st_value)
    ]
