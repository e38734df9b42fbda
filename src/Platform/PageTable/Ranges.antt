-- ===== src/Platform/PageTable/Ranges.antt =====
-- Ranges of pages in one half of the canonical addresses.
use kush_os_rewrite.Base.{
  ℕ, suc, ◌+◌, ◌-◌, ◌*◌, ◌/◌, ◌%◌, ◌^◌, ◌≤◌, ◌<◌, false, arith, u64, ◌≡◌, ◌≢◌, ◌⊎◌, inl, inr,
  le→ltb, ap, ◌∙◌,
}
use kush_os_rewrite.Platform.PageTable.{not_canonical}
use kush_os_rewrite.Platform.PageTable.Frame.{page_of}

-- The range stands in one half of the canonical addresses.
abbrev pub IsCanonicalRange : ℕ → ℕ → Type 0
IsCanonicalRange base len =
    (base + len ≤ 2 ^ 47) ⊎ ((0xffff800000000000 ≤ base) × (base + len ≤ 2 ^ 64))

pub in_range :
    (base len off : ℕ)
    → IsCanonicalRange base len
    → off < len
    → not_canonical (u64 (base + off)) ≡ false
in_range base len off (inl low) h = rw (le→ltb 0x00007fffffffffff (u64 (base + off)) (omega arith))
in_range base len off (inr high) h =
    rw (le→ltb (u64 (base + off)) 0xffff800000000000 (omega (arith, high.0, high.1))) (ground arith)

-- Pages of the range are different pages.
pub pages_apart :
    (base off n k x a : ℕ)
    → IsCanonicalRange base (off + suc n * 4096)
    → k < n
    → x ≡ off + 4096 + k * 4096
    → page_of a ≡ page_of (u64 (base + off))
    → page_of a ≢ page_of (u64 (base + x))
pages_apart base off n k x a (inl low) h q same e = omega arith
pages_apart base off n k x a (inr high) h q same e = omega (arith, high.0, high.1)

pub next_range :
    (base off n : ℕ)
    → IsCanonicalRange base (off + suc n * 4096)
    → IsCanonicalRange base (off + 4096 + n * 4096)
next_range base off n (inl low) = inl (omega arith)
next_range base off n (inr high) = inr (high.0, omega (arith, high.1))

-- Equal pages of canonical addresses are equal.
same_page :
    (a b : ℕ)
    → not_canonical a ≡ false
    → not_canonical b ≡ false
    → a < 2 ^ 64
    → b < 2 ^ 64
    → page_of a ≡ page_of b
    → a / 4096 ≡ b / 4096
same_page a b ca cb ha hb e = ground arith

pub page_start :
    (base a : ℕ)
    → base % 4096 ≡ 0
    → base ≤ a
    → a < 2 ^ 64
    → page_of a ≡ page_of (u64 (base + (a - base) / 4096 * 4096))
page_start base a aligned low small =
    let start : base + (a - base) / 4096 * 4096 ≡ a / 4096 * 4096 = omega arith in
    omega (arith, start)

pub canonical_in :
    (base len a : ℕ)
    → IsCanonicalRange base len
    → base ≤ a
    → a < base + len
    → not_canonical a ≡ false
canonical_in base len a (inl low) h h' = ground arith
canonical_in base len a (inr high) h h' =
    let upper : 0xffff800000000000 ≤ a = omega (arith, high.0) in ground arith

pub range_top : (base len : ℕ) → IsCanonicalRange base len → base + len ≤ 2 ^ 64
range_top base len (inl low) = omega arith
range_top base len (inr high) = high.1

-- An address outside a range is in none of its pages.
pub page_outside :
    (base len a k x : ℕ)
    → base % 4096 ≡ 0
    → len % 4096 ≡ 0
    → IsCanonicalRange base len
    → a < 2 ^ 64
    → not_canonical a ≡ false
    → (a < base) ⊎ (base + len ≤ a)
    → k < len / 4096
    → x ≡ k * 4096
    → page_of a ≢ page_of (u64 (base + x))
page_outside base len a k x aligned whole range small canonical away h q e =
    let inner : x + 4096 ≤ len = omega arith in
    let top : base + len ≤ 2 ^ 64 = range_top base len range in
    let flat : u64 (base + x) ≡ base + x = omega arith in
    let near : a / 4096 ≡ (base + x) / 4096 =
      same_page a (base + x) canonical
        (canonical_in base len (base + x) range (omega arith) (omega arith)) small (omega arith)
        (e ∙ ap page_of flat) in
    by_side inner near away
  where
    by_side : x + 4096 ≤ len → a / 4096 ≡ (base + x) / 4096 → (a < base) ⊎ (base + len ≤ a) → ⊥
    by_side inner near (inl below) = omega arith
    by_side inner near (inr behind) = omega arith
