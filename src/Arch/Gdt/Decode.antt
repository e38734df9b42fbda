-- ===== src/Arch/Gdt/Decode.antt =====
-- What the processor reads back from the descriptors that Gdt.cpp writes.
use kush_os_rewrite.Base.{
  ℕ, ◌+◌, ◌*◌, ◌/◌, ◌%◌, ◌^◌, ◌≤◌, ◌<◌, arith, List, length, set, get_or, bit_and, bit_or, lt→ltb,
  le→ltb, ==_of_ne, ◌-◌, le→leb,
}
use kush_os_rewrite.Base.{
  ◌≡◌, ◌≢◌, ap, sym, ◌∙◌, done, wild, get_or-set_self, get_or-set_ne, length-set,
}
use native.Mathlib.Nat.{mod-eq_of_lt}
use kush_os_rewrite.Base.Bits.{bit_and-low, bit_and-mask, bit_or_comm, bit_or-disjoint}
use kush_os_rewrite.Arch.Gdt.{word, descriptor32, high_word, set32, set64, install_tss, load}

-- The fields of a segment or system descriptor, as the processor's manual places them.
abbrev pub base_of : ℕ → ℕ
base_of w = w / 2 ^ 16 % 2 ^ 24 + w / 2 ^ 56 % 2 ^ 8 * 2 ^ 24

abbrev pub limit_of : ℕ → ℕ
limit_of w = w % 2 ^ 16 + w / 2 ^ 48 % 2 ^ 4 * 2 ^ 16

abbrev pub access_of : ℕ → ℕ
access_of w = w / 2 ^ 40 % 2 ^ 8

abbrev pub flags_of : ℕ → ℕ
flags_of w = w / 2 ^ 52 % 2 ^ 4

-- The base of a system descriptor, whose second word has its high half.
abbrev pub base64_of : ℕ → ℕ → ℕ
base64_of w w' = base_of w + w' % 2 ^ 32 * 2 ^ 32

nibbles : (a b : ℕ) → a < 16 → bit_or a (b * 16) ≡ b * 16 + a
nibbles a b h = bit_or_comm a (b * 16) ∙ bit_or-disjoint 4 b a h

granularity_lem :
    (limit gran : ℕ)
    → bit_or (bit_and (limit / 2 ^ 16) 0x0f) (bit_and gran 0xf0)
      ≡ gran % 256 / 16 * 16 + limit / 2 ^ 16 % 16
granularity_lem limit gran =
    rw (bit_and-low 4 (limit / 2 ^ 16), bit_and-mask 4 8 gran (omega arith))
      (nibbles (limit / 2 ^ 16 % 16) (gran % 256 / 16) (omega arith))

-- The decoded fields of a word.
pub record Reads (w base limit flags gran : ℕ) : Type 0 where
  pub has_base : base_of w ≡ base % 2 ^ 32
  pub has_limit : limit_of w ≡ limit % 2 ^ 20
  pub has_access : access_of w ≡ flags
  pub has_flags : flags_of w ≡ gran % 256 / 16

-- The word as a sum of digits.
word_lem :
    (base limit flags gran : ℕ)
    → word (descriptor32 base limit flags gran)
      ≡ limit % 2 ^ 16
        + base % 2 ^ 16 * 2 ^ 16
        + base / 2 ^ 16 % 256 * 2 ^ 32
        + flags * 2 ^ 40
        + (gran % 256 / 16 * 16 + limit / 2 ^ 16 % 16) * 2 ^ 48
        + base / 2 ^ 24 % 256 * 2 ^ 56
word_lem base limit flags gran = rw (
  bit_and-low 16 limit,
  bit_and-low 16 base,
  bit_and-low 8 (base / 2 ^ 16),
  bit_and-low 8 (base / 2 ^ 24),
  granularity_lem limit gran,
)

word-Reads :
    (base limit flags gran : ℕ)
    → flags < 256
    → Reads (word (descriptor32 base limit flags gran)) base limit flags gran
word-Reads base limit flags gran small =
    let e = word_lem base limit flags gran in
    record {
      has_base = omega (arith, e);
      has_limit = omega (arith, e);
      has_access = omega (arith, e);
      has_flags = omega (arith, e);
    }

-- `Set32` of one of the first six entries, in a table with all its entries: the processor reads from
-- that entry the base, the low 20 bits of the limit, the access byte and the flags that were given,
-- and the other entries are as before.
pub set32-Reads :
    (gdt : List ℕ) (num base limit flags gran : ℕ)
    → length gdt ≡ 64
    → num ≤ 5
    → base < 2 ^ 32
    → flags < 256
    → (gdt' : List ℕ) × (set32 gdt num base limit flags gran ≡ done gdt')
      × Reads (get_or gdt' num 0) base limit flags gran
      × ((i : ℕ) → i ≢ num → get_or gdt' i 0 ≡ get_or gdt i 0)
unfolding set32
set32-Reads gdt num base limit flags gran full small fits byte =
    let w : ℕ = word (descriptor32 base limit flags gran) in
    (
      set gdt num w,
      rw (le→leb num 5 small, lt→ltb num (length gdt) (omega (arith, full))),
      rw (get_or-set_self gdt num w 0 (omega (arith, full)))
          (word-Reads base limit flags gran byte),
      λ i ne. get_or-set_ne gdt num i w 0 (λ e. ne (sym e)),
    )

-- `InstallTss` for one of the first 29 slots, in a table with all its entries: the processor reads
-- from the slot the address of the TSS, whole, its size less one, and an available 64-bit TSS that is
-- present; no other entry changes.
pub install_tss-Reads :
    (gdt : List ℕ) (i tss : ℕ)
    → length gdt ≡ 64
    → i < 29
    → tss < 2 ^ 64
    → (gdt' : List ℕ) × (install_tss gdt i tss ≡ done gdt')
      × (base64_of (get_or gdt' (i * 2 + 6) 0) (get_or gdt' (i * 2 + 6 + 1) 0) ≡ tss)
      × (limit_of (get_or gdt' (i * 2 + 6) 0) ≡ 103)
      × (access_of (get_or gdt' (i * 2 + 6) 0) ≡ 0x89)
      × ((j : ℕ) → j ≢ i * 2 + 6 → j ≢ i * 2 + 6 + 1 → get_or gdt' j 0 ≡ get_or gdt j 0)
unfolding install_tss set64
install_tss-Reads gdt i tss full small fits =
    let w : ℕ = word (descriptor32 tss 103 0x89 0) in
    let n : ℕ = i * 2 + 6 in
    let reads = word-Reads tss 103 0x89 0 (omega arith) in
    let first : get_or (set (set gdt n w) (n + 1) (high_word tss)) n 0 ≡ w =
      get_or-set_ne (set gdt n w) (n + 1) n (high_word tss) 0 (λ e. absurd (omega (arith, e)))
      ∙ get_or-set_self gdt n w 0 (omega (arith, full)) in
    let second : get_or (set (set gdt n w) (n + 1) (high_word tss)) (i * 2 + 6 + 1) 0
        ≡ high_word tss =
      get_or-set_self (set gdt n w) (n + 1) (high_word tss) 0
        (omega (arith, full, length-set gdt n w)) in
    (
      set (set gdt n w) (n + 1) (high_word tss),
      rw (le→leb 5 n (omega arith), lt→ltb (n + 1) (length gdt) (omega (arith, full))),
      rw (first, second) (omega (arith, reads.has_base)),
      rw first reads.has_limit,
      rw first reads.has_access,
      λ j ne ne'.
          get_or-set_ne (set gdt n w) (n + 1) j (high_word tss) 0 (λ e. ne' (sym e))
          ∙ get_or-set_ne gdt n j w 0 (λ e. ne (sym e)),
    )

-- `Load` accepts from 30 to 57 TSS, although only 29 fit the table: the length that it loads reaches
-- past the table's 512 bytes, and to install the last of them writes past its end.
load_past_end :
    (gdt : List ℕ) (num_tss tss : ℕ)
    → length gdt ≡ 64
    → 30 ≤ num_tss
    → num_tss < 58
    → (limit : ℕ) × (load num_tss ≡ done limit)
      × (512 ≤ limit)
      × (install_tss gdt (num_tss - 1) tss ≡ wild)
unfolding load install_tss set64
load_past_end gdt num_tss tss full many few = (
  0x30 + num_tss * 16 - 1,
  rw (==_of_ne num_tss 0 (λ e. absurd (omega (arith, e))), lt→ltb num_tss 58 few)
      (ap done (mod-eq_of_lt {n = 0x30 + num_tss * 16 - 1} {m = 2 ^ 16} (omega arith))),
  omega arith,
  rw (
    le→leb 5 ((num_tss - 1) * 2 + 6) (omega arith),
    le→ltb ((num_tss - 1) * 2 + 6 + 1) (length gdt) (omega (arith, full)),
  ),
)
