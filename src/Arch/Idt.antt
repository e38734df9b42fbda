-- ===== src/Arch/Idt.antt =====
-- The interrupt descriptor table: Sources/Arch/Idt.cpp, Idt.h, IdtTypes.h and the table of
-- Sources/Arch/ExceptionHandlers.cpp of the platform. `lidt` loads what `load_length` gives.
pub mod Handlers
use kush_os_rewrite.Base.{
  ℕ, zero, suc, ◌+◌, ◌*◌, ◌/◌, ◌-◌, ◌^◌, Bool, true, false, List, [], ◌∷◌, replicate, set, get_or,
  bit_and, u8, u16, u32, ltb, Outcome, done, require, ◌>>=◌, ◌>>◌,
}
use kush_os_rewrite.Arch.Gdt.{kern_code_seg}

pub record IdtEntry : Type 0 where
  pub offset1 : ℕ
  pub selector : ℕ
  pub ist : ℕ
  pub flags : ℕ
  pub offset2 : ℕ
  pub offset3 : ℕ
  pub reserved : ℕ

abbrev pub blank : IdtEntry
blank = record {
  offset1 = 0;
  selector = 0;
  ist = 0;
  flags = 0;
  offset2 = 0;
  offset3 = 0;
  reserved = 0;
}

abbrev pub num_idt : ℕ
num_idt = 256

abbrev pub isr_flags : ℕ
isr_flags = 0x8e

abbrev pub trap_flags : ℕ
trap_flags = 0x8f

-- The fields that `set` writes; the reserved bits keep their value.
abbrev pub written : IdtEntry → ℕ → ℕ → ℕ → ℕ → IdtEntry
written old function segment flags stack = record old {
  offset1 = bit_and function 0xffff;
  offset2 = u16 (function / 2 ^ 16);
  selector = u16 segment;
  ist = stack;
  flags = u8 flags;
  offset3 = u32 (function / 2 ^ 32);
}

-- `set`
unfoldable pub set_entry : List IdtEntry → ℕ → ℕ → ℕ → ℕ → ℕ → Outcome (List IdtEntry)
set_entry idt entry function segment flags stack = do
  require (ltb entry num_idt)
  done (set idt entry (written (get_or idt entry blank) function segment flags stack))

-- `load`: the length that is loaded.
abbrev pub load_length : ℕ
load_length = u16 (16 * num_idt - 1)

-- An entry of `gDefaultHandlers`. The handlers' addresses, from the assembly, are an argument of the
-- table: the address for each index.
pub record Handler : Type 0 where
  pub function : ℕ
  pub idt_index : ℕ
  pub segment : ℕ
  pub flags : ℕ
  pub stack : ℕ

abbrev pub trap : (ℕ → ℕ) → ℕ → ℕ → Handler
trap address i stack = record {
  function = address i;
  idt_index = i;
  segment = kern_code_seg;
  flags = trap_flags;
  stack = stack;
}

abbrev pub default_handlers : (ℕ → ℕ) → List Handler
default_handlers address =
    trap address 0 1
    ∷ trap address 1 4
    ∷ record (trap address 2 3) { flags = isr_flags }
    ∷ trap address 3 4
    ∷ trap address 4 1
    ∷ trap address 5 1
    ∷ trap address 6 2
    ∷ trap address 7 2
    ∷ trap address 8 2
    ∷ trap address 10 1
    ∷ trap address 11 1
    ∷ trap address 12 1
    ∷ trap address 13 2
    ∷ trap address 14 7
    ∷ trap address 16 2
    ∷ trap address 17 2
    ∷ trap address 18 4
    ∷ trap address 19 1
    ∷ trap address 20 1
    ∷ []

-- The loop of `Install`
unfoldable pub install : List IdtEntry → List Handler → Outcome (List IdtEntry)
install idt [] = done idt
install idt (h ∷ handlers) = do
  idt' ← set_entry idt h.idt_index h.function h.segment h.flags h.stack
  install idt' handlers

-- `Idt()`
unfoldable pub create : (ℕ → ℕ) → Outcome (List IdtEntry)
create address = install (replicate num_idt blank) (default_handlers address)
