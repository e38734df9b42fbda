-- ===== src/Platform/PageTable/Entries.antt =====
-- The entries that `mapPage` writes, as the walk reads them.
use kush_os_rewrite.Base.{ℕ, ◌+◌, ◌-◌, ◌*◌, ◌/◌, ◌%◌, ◌^◌, ◌<◌, true, false, bit_and, bit_or, arith}
use kush_os_rewrite.Base.{◌≡◌, refl, ap, ◌∙◌, ltb, if◌then◌else◌, Bool-cases, inl, inr}
use kush_os_rewrite.Base.Bits.{bit_and-mask, bit_or-low_bits, bit_and-low_bits}
use kush_os_rewrite.Platform.Layout.{kernel_boundary}
use kush_os_rewrite.Platform.PageTable.{
  present, large, table_addr, table_entry, page_entry, decode_phys, decode_mode,
}
use kush_os_rewrite.Vm.Types.{test_flags}
use kush_os_rewrite.Vm.Mode

pub table_addr_lem : (e : ℕ) → table_addr e ≡ e % 2 ^ 63 / 4096 * 4096
unfolding table_addr
table_addr_lem e = omega (
  arith,
  bit_and-mask 12 64 e (omega arith),
  bit_and-mask 9 63 (bit_and e (2 ^ 64 - 2 ^ 12)) (omega arith),
)

-- Flags below 4096 beside a page-aligned address.
module _ (q f : ℕ) (small : f < 4096) where
  low : (s : ℕ) → s < 4096 → bit_and (q * 4096 + f) s ≡ bit_and f s
  low s h = bit_and-low_bits 12 q f s small h

-- The flags that a table entry has beside its address.
abbrev table_flags : ℕ → ℕ
table_flags virt = if ltb virt kernel_boundary then 7 else 3

table_entry_fields : (q virt : ℕ) → table_entry (q * 4096) virt ≡ q * 4096 + table_flags virt
unfolding table_entry
table_entry_fields q virt =
    let three : bit_or (q * 4096) 3 ≡ q * 4096 + 3 =
      ap (λ (t : ℕ). bit_or t 3) plus_zero ∙ bit_or-low_bits 12 q 0 3 (omega arith) (omega arith) in
    elim (Bool-cases (ltb virt kernel_boundary)) [
      | inl user ↦ rw (user, three) (bit_or-low_bits 12 q 3 4 (omega arith) (omega arith))
      | inr kernel ↦ rw (kernel, three)
    ]
  where
    plus_zero : q * 4096 ≡ q * 4096 + 0
    plus_zero = omega arith

-- An entry made for a table is present, maps no large page and leads to that table.
pub table_entry_lem :
    (page virt : ℕ)
    → page % 4096 ≡ 0
    → page < 2 ^ 63
    → (present (table_entry page virt) ≡ true)
      × (large (table_entry page virt) ≡ false)
      × (table_addr (table_entry page virt) ≡ page)
table_entry_lem page virt aligned below =
    let e : page ≡ page / 4096 * 4096 = omega arith in
    let fields : table_entry page virt ≡ page / 4096 * 4096 + table_flags virt =
      ap (λ (p : ℕ). table_entry p virt) e ∙ table_entry_fields (page / 4096) virt in
    elim (Bool-cases (ltb virt kernel_boundary)) [
      | inl user ↦
          rw (fields, user)
            (
              rw (low (page / 4096) 7 (omega arith) 1 (omega arith)) refl,
              rw (low (page / 4096) 7 (omega arith) 0x80 (omega arith)) refl,
              table_addr_lem (page / 4096 * 4096 + 7) ∙ omega arith,
            )
      | inr kernel ↦
          rw (fields, kernel)
            (
              rw (low (page / 4096) 3 (omega arith) 1 (omega arith)) refl,
              rw (low (page / 4096) 3 (omega arith) 0x80 (omega arith)) refl,
              table_addr_lem (page / 4096 * 4096 + 3) ∙ omega arith,
            )
    ]

-- The flags of an entry for a page.
abbrev pub page_flags : ℕ → ℕ
page_flags mode =
    (if test_flags (bit_and mode Mode.write) then 2 else 0)
    + (if test_flags (bit_and mode Mode.user_mask) then 4 else 0)
    + 1

-- The mode that the walk reads from them. Nothing is ever marked not executable.
unfoldable pub effective_mode : ℕ → ℕ
effective_mode mode =
    if test_flags (bit_and mode Mode.user_mask)
    then (if test_flags (bit_and mode Mode.write) then 0x700 else 0x500)
    else (if test_flags (bit_and mode Mode.write) then 0x7 else 0x5)

or_flag : (q f s : ℕ) → f < 4096 → s < 4096 → bit_or (q * 4096 + f) s ≡ q * 4096 + bit_or f s
or_flag q f s h h' = bit_or-low_bits 12 q f s h h'

module _ (phys mode : ℕ) where
  abbrev frame : ℕ
  frame = phys % 2 ^ 63 / 4096

  first_flag : bit_or (table_addr phys) 1 ≡ frame * 4096 + 1
  first_flag =
      let e : table_addr phys ≡ frame * 4096 + 0 = omega (arith, table_addr_lem phys) in
      rw e (or_flag frame 0 1 (omega arith) (omega arith))

  page_entry_fields : page_entry phys mode ≡ frame * 4096 + page_flags mode
  unfolding page_entry
  page_entry_fields = elim (Bool-cases (test_flags (bit_and mode Mode.write))) [
    | inl w ↦ elim (Bool-cases (test_flags (bit_and mode Mode.user_mask))) [
      | inl u ↦ rw (
        w,
        u,
        first_flag,
        or_flag frame 1 2 (omega arith) (omega arith),
        or_flag frame 3 4 (omega arith) (omega arith),
      )
      | inr u ↦ rw (w, u, first_flag, or_flag frame 1 2 (omega arith) (omega arith))
    ]
    | inr w ↦ elim (Bool-cases (test_flags (bit_and mode Mode.user_mask))) [
      | inl u ↦ rw (w, u, first_flag, or_flag frame 1 4 (omega arith) (omega arith))
      | inr u ↦ rw (w, u, first_flag)
    ]
  ]

  flags-small : page_flags mode < 4096
  flags-small = ground arith

  top_bit : bit_and (page_entry phys mode) (2 ^ 63) ≡ 0
  top_bit = omega (
    arith,
    bit_and-mask 63 64 (page_entry phys mode) (omega arith),
    page_entry_fields,
    flags-small,
  )

  decode_phys_lem : decode_phys (page_entry phys mode) ≡ phys % 2 ^ 52 / 4096 * 4096
  unfolding decode_phys
  decode_phys_lem = omega (
    arith,
    bit_and-mask 12 52 (page_entry phys mode) (omega arith),
    page_entry_fields,
    flags-small,
  )

  flag : (s : ℕ) → s < 4096 → bit_and (page_entry phys mode) s ≡ bit_and (page_flags mode) s
  flag s h = rw page_entry_fields (low frame (page_flags mode) flags-small s h)

  entry_present : present (page_entry phys mode) ≡ true
  entry_present =
      rw (flag 1 (omega arith)) (elim (Bool-cases (test_flags (bit_and mode Mode.write))) [
        | inl w ↦ elim (Bool-cases (test_flags (bit_and mode Mode.user_mask))) [
          | inl u ↦ rw (w, u)
          | inr u ↦ rw (w, u)
        ]
        | inr w ↦ elim (Bool-cases (test_flags (bit_and mode Mode.user_mask))) [
          | inl u ↦ rw (w, u)
          | inr u ↦ rw (w, u)
        ]
      ])

  entry_mode : decode_mode (page_entry phys mode) ≡ effective_mode mode
  unfolding decode_mode effective_mode
  entry_mode =
      rw (flag 4 (omega arith), flag 2 (omega arith), top_bit)
        (elim (Bool-cases (test_flags (bit_and mode Mode.write))) [
          | inl w ↦ elim (Bool-cases (test_flags (bit_and mode Mode.user_mask))) [
            | inl u ↦ rw (w, u)
            | inr u ↦ rw (w, u)
          ]
          | inr w ↦ elim (Bool-cases (test_flags (bit_and mode Mode.user_mask))) [
            | inl u ↦ rw (w, u)
            | inr u ↦ rw (w, u)
          ]
        ])

  -- An entry made for a page is present and decodes to the page's frame and mode.
  pub page_entry_lem :
      (present (page_entry phys mode) ≡ true)
      × (decode_phys (page_entry phys mode) ≡ phys % 2 ^ 52 / 4096 * 4096)
      × (decode_mode (page_entry phys mode) ≡ effective_mode mode)
  page_entry_lem = (entry_present, decode_phys_lem, entry_mode)
