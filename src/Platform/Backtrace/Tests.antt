-- ===== src/Platform/Backtrace/Tests.antt =====
-- A file at 4096 with a symbol table of two functions and a string table.
use kush_os_rewrite.Base.{ℕ, ◌*◌, ◌==◌, if◌then◌else◌, arith, ◌≡◌, ◌≢◌, refl, ==_of_ne, ◌+◌}
use kush_os_rewrite.Platform.Backtrace.{
  Header, Memory, State, parse_kernel_elf, symbolicate, section,
}
use kush_os_rewrite.Platform.Backtrace.Nearest.{IsAnswer, symbolicate_lem}
use kush_os_rewrite.Platform.Backtrace.Tables.{tables, parse_kernel_elf_lem}

abbrev header : Header
header = record {
  ident = λ i. if i == 0 then 0x7f else if i == 1 then 0x45 else if i == 2 then 0x4c else 0x46;
  sec_hdr_off = 64;
  sec_hdr_size = 64;
  num_sec_hdr = 3;
}

abbrev mem : Memory
mem = record {
  header_at = λ a. header;
  section_at = λ a.
      if a == 4224
      then record { sh_type = 2; sh_offset = 512; sh_size = 72; sh_link = 2 }
      else record { sh_type = 3; sh_offset = 1024; sh_size = 72; sh_link = 0 };
  symbol_at = λ a.
      if a == 4608
      then record { st_name = 1; st_info = 0x12; st_value = 0x2000 }
      else record { st_name = 5; st_info = 0x12; st_value = 0x2100 };
}

abbrev no_tables : State
no_tables = record { symtab = 0; symtab_len = 0; strtab = 0; strtab_len = 0 }

-- The first section is the only symbol table.
one_table : (j : ℕ) → j ≢ 1 → (section mem 4096 j).sh_type ≢ 2
one_table j q =
    rw (==_of_ne (4160 + 64 * j) 4224 (λ e. q (omega arith))) (λ t. absurd (omega (arith, t)))

parse_kernel_elf_lem_example : parse_kernel_elf mem no_tables 4096 2048 ≡ tables mem 4096 1
parse_kernel_elf_lem_example =
    parse_kernel_elf_lem mem no_tables 4096 2048 1 (omega arith) refl (omega arith) (omega arith)
      refl (omega arith) (omega arith) (λ j h q. one_table j q)

symbolicate_lem_example :
    IsAnswer mem
      (tables mem 4096 1)
      0x2110
      (symbolicate mem 0x1000 0x3000 (tables mem 4096 1) 0x2110)
symbolicate_lem_example =
    symbolicate_lem mem 0x1000 0x3000 0x2110 (tables mem 4096 1) (omega arith) (omega arith)
      (omega arith) (omega arith) (omega arith) (omega arith)
