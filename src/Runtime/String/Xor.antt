-- ===== src/Runtime/String/Xor.antt =====
-- What the alignment tests of the copies say of the pointers.
use Prim.Native.Nat.{differ, bit_xor-bitwise}
use kush_os_rewrite.Base.{
  ℕ, zero, suc, ◌+◌, ◌*◌, ◌/◌, ◌%◌, ◌<◌, bit_or, bit_xor, arith, ◌≡◌, refl, true, false,
}
use kush_os_rewrite.Base.{◌==◌, eq_of_==, Bool-cases, inl, inr}
use kush_os_rewrite.Base.Bits.{lowest_digit, bit_or-digit, bit_and-low}
use kush_os_rewrite.Runtime.String.{unaligned, differ_low}

bit_xor-digit : (a b : ℕ) → bit_xor a b ≡ bit_xor (a / 2) (b / 2) * 2 + differ (a % 2) (b % 2)
bit_xor-digit zero b = simp bit_xor-bitwise (omega arith)
bit_xor-digit (suc a) b = simp bit_xor-bitwise (lowest_digit (λ y. y) differ a b)

differ-eq : (x y : ℕ) → x < 2 → y < 2 → differ x y % 2 ≡ 0 → x ≡ y
differ-eq zero zero h k e = refl
differ-eq zero (suc zero) h k e = absurd (omega (arith, e))
differ-eq (suc zero) zero h k e = absurd (omega (arith, e))
differ-eq (suc zero) (suc zero) h k e = refl
differ-eq (suc (suc x)) y h k e = absurd (omega arith)
differ-eq zero (suc (suc y)) h k e = absurd (omega arith)
differ-eq (suc zero) (suc (suc y)) h k e = absurd (omega arith)

differ-lt : (x y : ℕ) → x < 2 → y < 2 → differ x y < 2
differ-lt zero zero h k = omega arith
differ-lt zero (suc zero) h k = omega arith
differ-lt (suc zero) zero h k = omega arith
differ-lt (suc zero) (suc zero) h k = omega arith
differ-lt (suc (suc x)) y h k = absurd (omega arith)
differ-lt zero (suc (suc y)) h k = absurd (omega arith)
differ-lt (suc zero) (suc (suc y)) h k = absurd (omega arith)

-- An even `^` has its lowest digits the same; its half is the `^` of the halves.
even : (a b : ℕ) → bit_xor a b % 2 ≡ 0 → a % 2 ≡ b % 2
even a b h =
    differ-eq (a % 2) (b % 2) (omega arith) (omega arith) (omega (arith, bit_xor-digit a b))

half : (a b : ℕ) → bit_xor a b / 2 ≡ bit_xor (a / 2) (b / 2)
half a b = omega (arith, bit_xor-digit a b, differ-lt (a % 2) (b % 2) (omega arith) (omega arith))

-- Where the test `(src ^ dst) & wmask` is 0, the low bits are the same.
pub same_low : (a b : ℕ) → differ_low a b ≡ false → a % 8 ≡ b % 8
same_low a b h =
    let whole : bit_xor a b % 8 ≡ 0 = ground (arith, bit_and-low 3 (bit_xor a b)) in
    omega (
      arith,
      even a b (omega arith),
      even (a / 2) (b / 2) (omega (arith, half a b)),
      even (a / 2 / 2) (b / 2 / 2) (omega (arith, half a b, half (a / 2) (b / 2))),
    )

or_low : (a b : ℕ) → a % 8 ≡ 0 → b % 8 ≡ 0 → bit_or a b % 8 ≡ 0
or_low a b h k =
    omega
      (arith, bit_or-digit a b, bit_or-digit (a / 2) (b / 2), bit_or-digit (a / 2 / 2) (b / 2 / 2))

-- Where the pointers are not aligned but have the same low bits, neither is aligned.
pub low_some : (a b : ℕ) → unaligned a b ≡ true → differ_low a b ≡ false → (0 < a % 8) × (0 < b % 8)
low_some a b h k =
    let same = same_low a b k in
    elim (Bool-cases (a % 8 == 0)) [
      | inl e ↦
          let zero_low : bit_or a b % 8 ≡ 0 =
            or_low a b (eq_of_== (a % 8) 0 e) (omega (arith, eq_of_== (a % 8) 0 e)) in
          absurd (ground (arith, bit_and-low 3 (bit_or a b)))
      | inr ne ↦ ground arith
    ]
