-- ===== src/Arch/Tests.antt =====
-- The descriptor tables at concrete entries.
use kush_os_rewrite.Base.{true, false, ◌%◌, ◌^◌}
use kush_os_rewrite.Base.{ℕ, ◌+◌, ◌*◌, ◌<◌, List, replicate, get_or, ◌≡◌, ◌≢◌, refl, arith, done}
use kush_os_rewrite.Arch.Gdt
use kush_os_rewrite.Arch.Gdt.Decode.{
  Reads, base64_of, limit_of, access_of, set32-Reads, install_tss-Reads,
}
use kush_os_rewrite.Arch.Idt
use kush_os_rewrite.Arch.Idt.{IdtEntry, blank, default_handlers}
use kush_os_rewrite.Arch.Idt.Handlers.{IsGate, is_exception, flags_of, stack_of, create_lem}

abbrev empty : List ℕ
empty = replicate 64 0

-- The kernel's code segment.
set32-Reads_example :
    (gdt' : List ℕ) × (Gdt.set32 empty 1 0 0xffffffff 0x9a 0xaf ≡ done gdt')
    × Reads (get_or gdt' 1 0) 0 0xffffffff 0x9a 0xaf
    × ((i : ℕ) → i ≢ 1 → get_or gdt' i 0 ≡ get_or empty i 0)
set32-Reads_example =
    set32-Reads empty 1 0 0xffffffff 0x9a 0xaf refl (omega arith) (omega arith) (omega arith)

install_tss-Reads_example :
    (gdt' : List ℕ) × (Gdt.install_tss empty 1 0xffffffff80123440 ≡ done gdt')
    × (base64_of (get_or gdt' 8 0) (get_or gdt' 9 0) ≡ 0xffffffff80123440)
    × (limit_of (get_or gdt' 8 0) ≡ 103)
    × (access_of (get_or gdt' 8 0) ≡ 0x89)
    × ((j : ℕ) → j ≢ 8 → j ≢ 9 → get_or gdt' j 0 ≡ get_or empty j 0)
install_tss-Reads_example =
    install_tss-Reads empty 1 0xffffffff80123440 refl (omega arith) (omega arith)

abbrev no_gates : List IdtEntry
no_gates = replicate 256 blank

-- Addresses in the kernel's range, for all indices.
abbrev handler_address : ℕ → ℕ
handler_address i = 0xffffffff80100000 + i * 16 % 4096

address-lt : (i : ℕ) → handler_address i < 2 ^ 64
address-lt i = omega arith

create_lem_example :
    (idt' : List IdtEntry) × (Idt.create handler_address ≡ done idt')
    × ((i : ℕ)
        → is_exception i ≡ true
        → IsGate (get_or idt' i blank) (handler_address i) 0x8 (flags_of i) (stack_of i))
    × ((i : ℕ) → is_exception i ≡ false → get_or idt' i blank ≡ blank)
create_lem_example = create_lem handler_address address-lt
