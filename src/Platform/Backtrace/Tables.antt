-- ===== src/Platform/Backtrace/Tables.antt =====
-- `ParseKernelElf` finds the one symbol table of a file and its string table.
use kush_os_rewrite.Base.{
  ℕ, zero, suc, ◌+◌, ◌≤◌, ◌<◌, true, ◌==◌, ==_of_ne, ==_of_eq, le→ltb, arith, ◌≡◌, ◌≢◌, refl, ap,
  ◌∙◌, sym, eq_of_==, Bool-cases, inl, inr,
}
use mathlib.Core.Path.{subst}
use kush_os_rewrite.Platform.Backtrace.{
  Memory, State, Section, section, is_elf, parse_section, parse_from, parse_kernel_elf, Next, go_on,
  leave,
}

-- The tables that section i names, when it is a symbol table.
abbrev pub tables : Memory → ℕ → ℕ → State
tables mem base i = record {
  symtab = base + (section mem base i).sh_offset;
  symtab_len = (section mem base i).sh_size;
  strtab = base + (section mem base (section mem base i).sh_link).sh_offset;
  strtab_len = (section mem base (section mem base i).sh_link).sh_size;
}

module _ (mem : Memory) (base : ℕ) where
  -- Sections that are no symbol tables change nothing.
  parse_other :
      (s : State) (shdr : Section) → shdr.sh_type ≢ 2 → parse_section mem base s shdr ≡ go_on s
  unfolding parse_section
  parse_other s shdr h = rw (==_of_ne shdr.sh_type 2 h)

  parse_symtab :
      (s : State) (i : ℕ)
      → (section mem base i).sh_type ≡ 2
      → 0 < (section mem base i).sh_link
      → (section mem base i).sh_link ≤ (mem.header_at base).num_sec_hdr
      → parse_section mem base s (section mem base i) ≡ go_on (tables mem base i)
  unfolding parse_section
  parse_symtab s i h low high = rw (
    ==_of_eq (section mem base i).sh_type 2 h,
    le→ltb (mem.header_at base).num_sec_hdr (section mem base i).sh_link high,
    ==_of_ne (section mem base i).sh_link 0 (omega arith),
  )

  parse_others :
      (n i : ℕ) (s : State)
      → ((j : ℕ) → i ≤ j → j < i + n → (section mem base j).sh_type ≢ 2)
      → parse_from mem base n i s ≡ s
  unfolding parse_from
  parse_others zero i s others = refl
  parse_others (suc n) i s others =
      ap (λ (r : Next). elim r [ leave s' ↦ s' | go_on s' ↦ parse_from mem base n (i + 1) s' ])
        (parse_other s (section mem base i) (others i (omega arith) (omega arith)))
      ∙ parse_others n (i + 1) s (λ j low high. others j (omega arith) (omega arith))

  -- Section t is the only symbol table among the n sections from the i-th on.
  record IsOnly (n i t : ℕ) : Type 0 where
    from : i ≤ t
    to : t < i + n
    others : (j : ℕ) → i ≤ j → j < i + n → j ≢ t → (section mem base j).sh_type ≢ 2

  module _ (t : ℕ) (is_table : (section mem base t).sh_type ≡ 2)
      (low : 0 < (section mem base t).sh_link)
      (high : (section mem base t).sh_link ≤ (mem.header_at base).num_sec_hdr) where
    parse_here :
        (n : ℕ) (s : State)
        → ((j : ℕ) → t + 1 ≤ j → j < t + 1 + n → (section mem base j).sh_type ≢ 2)
        → parse_from mem base (suc n) t s ≡ tables mem base t
    unfolding parse_from
    parse_here n s others =
        ap (λ (r : Next). elim r [ leave s' ↦ s' | go_on s' ↦ parse_from mem base n (t + 1) s' ])
          (parse_symtab s t is_table low high)
        ∙ parse_others n (t + 1) (tables mem base t) others

    parse_to : (n i : ℕ) (s : State) → IsOnly n i t → parse_from mem base n i s ≡ tables mem base t
    unfolding parse_from
    parse_to zero i s only = absurd (omega (arith, only.from, only.to))
    parse_to (suc n) i s only = elim (Bool-cases (i == t)) [
      | inl e ↦
          subst (λ k. parse_from mem base (suc n) k s ≡ tables mem base t) (sym (eq_of_== i t e))
            (parse_here n s (λ j h1 h2.
              only.others j (omega (arith, only.from)) (omega (arith, h2, eq_of_== i t e))
                (λ q. absurd (omega arith))))
      | inr e ↦
          ap (λ (r : Next). elim r [ leave s' ↦ s' | go_on s' ↦ parse_from mem base n (i + 1) s' ])
            (parse_other s (section mem base i)
              (only.others i (omega arith) (omega arith) (λ q. cc (e, ==_of_eq i t q))))
          ∙ parse_to n (i + 1) s (record {
            from = (let q : i ≢ t = λ q. cc (e, ==_of_eq i t q) in omega (arith, q, only.from));
            to = omega (arith, only.to);
            others = λ j h1 h2 q. only.others j (omega arith) (omega arith) q;
          })
    ]

-- For an ELF file at an address that is not 0, whose section headers are at most 64 bytes long, if
-- exactly one of its sections is a symbol table and that one's link is not 0 and at most the number
-- of sections, then `ParseKernelElf` leaves the address and the length of this table and of the
-- section that it links to.
pub parse_kernel_elf_lem :
    (mem : Memory) (s : State) (base len t : ℕ)
    → 0 < base
    → is_elf (mem.header_at base) ≡ true
    → (mem.header_at base).sec_hdr_size ≤ 64
    → t < (mem.header_at base).num_sec_hdr
    → (section mem base t).sh_type ≡ 2
    → 0 < (section mem base t).sh_link
    → (section mem base t).sh_link ≤ (mem.header_at base).num_sec_hdr
    → ((j : ℕ) → j < (mem.header_at base).num_sec_hdr → j ≢ t → (section mem base j).sh_type ≢ 2)
    → parse_kernel_elf mem s base len ≡ tables mem base t
unfolding parse_kernel_elf
parse_kernel_elf_lem mem s base len t h magic size inside is_table low high others =
    rw (==_of_ne base 0 (omega arith), magic, le→ltb 64 (mem.header_at base).sec_hdr_size size)
      (parse_to mem base t is_table low high (mem.header_at base).num_sec_hdr 0 s (record {
        from = omega arith;
        to = omega (arith, inside);
        others = λ j h1 h2 q. others j (omega (arith, h2)) q;
      }))
