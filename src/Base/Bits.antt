-- ===== src/Base/Bits.antt =====
-- Laws of `&`, `|` and `~` on words, bit by bit and for masks.
use Prim.Native.Nat.{digits, bitwise, bit_and-bitwise, bit_or-bitwise}
use Prim.Native.Nat.{ℕ, zero, suc, ◌+◌, ◌-◌, ◌*◌, ◌/◌, ◌%◌, ◌^◌, ◌≤◌, ◌<◌, min, max}
use Prim.Native.Nat.{bit_and, bit_or}
use mathlib.Core.Path.{◌≡◌, refl, ap}
use mathlib.Core.Bool.{false, ◌&&◌, ◌||◌, not}
use native.Mathlib.Omega.{arith}
use native.Mathlib.Nat.{
  le_refl, pow-suc, one-le-pow, mod-lt, mod-eq_of_lt, div-add-mod, mul-add-mod_self_left,
  div-div-eq-div-mul,
}
use kush_os_rewrite.Base.Tests.{◌==◌}
use kush_os_rewrite.Base.Word.{test_bit}

-- The lowest digit of the digitwise operations.
module _ (z : ℕ → ℕ) (f : ℕ → ℕ → ℕ) where
  enough_digits : (n m a b : ℕ) → a ≤ n → a ≤ m → digits z f n a b ≡ digits z f m a b
  enough_digits zero zero a b p q = refl
  enough_digits zero (suc m) zero b p q = refl
  enough_digits zero (suc m) (suc a) b p q = absurd (omega arith)
  enough_digits (suc n) zero zero b p q = refl
  enough_digits (suc n) zero (suc a) b p q = absurd (omega arith)
  enough_digits (suc n) (suc m) zero b p q = refl
  enough_digits (suc n) (suc m) (suc a) b p q =
      rw (enough_digits n m (suc a / 2) (b / 2) (omega arith) (omega arith))

  pub lowest_digit :
      (a b : ℕ)
      → bitwise z f (suc a) b ≡ bitwise z f (suc a / 2) (b / 2) * 2 + f (suc a % 2) (b % 2)
  lowest_digit a b =
      omega (arith, enough_digits a (suc a / 2) (suc a / 2) (b / 2) (omega arith) (le_refl _))

pub bit_or-digit : (a b : ℕ) → bit_or a b ≡ bit_or (a / 2) (b / 2) * 2 + max (a % 2) (b % 2)
bit_or-digit zero b = simp bit_or-bitwise (omega arith)
bit_or-digit (suc a) b = simp bit_or-bitwise (lowest_digit (λ y. y) max a b)

pub bit_and-digit : (a b : ℕ) → bit_and a b ≡ bit_and (a / 2) (b / 2) * 2 + min (a % 2) (b % 2)
bit_and-digit zero b = simp bit_and-bitwise (omega arith)
bit_and-digit (suc a) b = simp bit_and-bitwise (lowest_digit (λ y. 0) min a b)

bit_and-half : (a b : ℕ) → bit_and a b / 2 ≡ bit_and (a / 2) (b / 2)
bit_and-half a b = omega (arith, bit_and-digit a b)

bit_or-half : (a b : ℕ) → bit_or a b / 2 ≡ bit_or (a / 2) (b / 2)
bit_or-half a b = omega (arith, bit_or-digit a b)

-- Bit i of `a & b`.
pub test_bit-bit_and : (i a b : ℕ) → test_bit (bit_and a b) i ≡ (test_bit a i && test_bit b i)
unfolding test_bit
test_bit-bit_and zero a b = ground (arith, bit_and-digit a b)
test_bit-bit_and (suc i) a b = rw (bit_and-half a b) (test_bit-bit_and i (a / 2) (b / 2))

-- Bit i of `a | b`.
pub test_bit-bit_or : (i a b : ℕ) → test_bit (bit_or a b) i ≡ (test_bit a i || test_bit b i)
unfolding test_bit
test_bit-bit_or zero a b = ground (arith, bit_or-digit a b)
test_bit-bit_or (suc i) a b = rw (bit_or-half a b) (test_bit-bit_or i (a / 2) (b / 2))

test_bit-zero : (i : ℕ) → test_bit 0 i ≡ false
unfolding test_bit
test_bit-zero zero = refl
test_bit-zero (suc i) = test_bit-zero i

pow-suc-half : (k : ℕ) → 2 ^ suc k / 2 ≡ 2 ^ k
pow-suc-half k = omega (arith, pow-suc 2 k)

-- Bit i of `1 << k`.
pub test_bit-pow : (i k : ℕ) → test_bit (2 ^ k) i ≡ (i == k)
unfolding test_bit
test_bit-pow zero zero = refl
test_bit-pow zero (suc k) = ground (arith, pow-suc 2 k)
test_bit-pow (suc i) zero = ground (arith, test_bit-zero i)
test_bit-pow (suc i) (suc k) = rw (pow-suc-half k, test_bit-pow i k) (ground arith)

-- Bit i of the complement within w bits.
pub test_bit-complement :
    (i w a : ℕ) → a < 2 ^ w → i < w → test_bit (2 ^ w - 1 - a) i ≡ not (test_bit a i)
unfolding test_bit
test_bit-complement i zero a h lt = absurd (omega arith)
test_bit-complement zero (suc w) a h lt = ground (arith, pow-suc 2 w)
test_bit-complement (suc i) (suc w) a h lt =
    let e : (2 ^ suc w - 1 - a) / 2 ≡ 2 ^ w - 1 - a / 2 = omega (arith, pow-suc 2 w) in
    rw e (test_bit-complement i w (a / 2) (omega (arith, pow-suc 2 w)) (omega arith))

pub pow-pos : (k : ℕ) → 0 < 2 ^ k
pow-pos k = one-le-pow k 2 (omega arith)

mod-double : (a m : ℕ) → 0 < m → a % (2 * m) ≡ a / 2 % m * 2 + a % 2
mod-double a m h = omega (
  arith,
  ap (λ (t : ℕ). t % (2 * m)) split,
  mul-add-mod_self_left (2 * m) (a / 2 / m) (a / 2 % m * 2 + a % 2),
  mod-eq_of_lt {n = a / 2 % m * 2 + a % 2} {m = 2 * m} (omega (arith, mod-lt (a / 2) h)),
)
  where
    split : a ≡ 2 * m * (a / 2 / m) + (a / 2 % m * 2 + a % 2)
    split = omega (arith, div-add-mod (a / 2) m)

pub bit_and-zero : (n a : ℕ) → a ≤ n → bit_and a 0 ≡ 0
bit_and-zero zero zero h = refl
bit_and-zero zero (suc a) h = absurd (omega arith)
bit_and-zero (suc n) zero h = refl
bit_and-zero (suc n) (suc a) h =
    omega (arith, bit_and-digit (suc a) 0, bit_and-zero n (suc a / 2) (omega arith))

two_pow_suc : (k : ℕ) → 2 ^ suc k ≡ 2 * 2 ^ k
two_pow_suc k = omega (arith, pow-suc 2 k)

quotient_lem : (a k w : ℕ) → a % 2 ^ suc w / 2 ^ suc k ≡ a / 2 % 2 ^ w / 2 ^ k
quotient_lem a k w =
    let halved : a % (2 * 2 ^ w) / 2 ≡ a / 2 % 2 ^ w =
      omega (arith, mod-double a (2 ^ w) (pow-pos w)) in
    rw (two_pow_suc w, two_pow_suc k, ← div-div-eq-div-mul (a % (2 * 2 ^ w)) 2 (2 ^ k), halved)

-- A mask of ones from bit k up to bit w keeps those bits.
pub bit_and-mask : (k w a : ℕ) → k ≤ w → bit_and a (2 ^ w - 2 ^ k) ≡ a % 2 ^ w / 2 ^ k * 2 ^ k
bit_and-mask zero zero a le = omega (arith, bit_and-zero a a (le_refl _))
bit_and-mask (suc k) zero a le = absurd (omega arith)
bit_and-mask zero (suc w) a le =
    let odd : (2 ^ suc w - 1) / 2 ≡ 2 ^ w - 1 = omega (arith, pow-suc 2 w, pow-pos w) in
    omega (
      arith,
      bit_and-digit a (2 ^ suc w - 1),
      ap (λ (t : ℕ). bit_and (a / 2) t) odd,
      pow-pos w,
      ap (λ (t : ℕ). a % t) (two_pow_suc w),
      bit_and-mask zero w (a / 2) (omega arith),
      pow-suc 2 w,
      mod-double a (2 ^ w) (pow-pos w),
    )
bit_and-mask (suc k) (suc w) a le =
    let even : (2 ^ suc w - 2 ^ suc k) / 2 ≡ 2 ^ w - 2 ^ k =
      omega (arith, pow-suc 2 w, pow-suc 2 k) in
    let quotient : a % 2 ^ suc w / 2 ^ suc k ≡ a / 2 % 2 ^ w / 2 ^ k = quotient_lem a k w in
    rw quotient (
      omega (
        arith,
        bit_and-digit a (2 ^ suc w - 2 ^ suc k),
        ap (λ (t : ℕ). bit_and (a / 2) t) even,
        bit_and-mask k w (a / 2) (omega arith),
        pow-suc 2 w,
        pow-suc 2 k,
        ap (λ (t : ℕ). a / 2 % 2 ^ w / 2 ^ k * t) (pow-suc 2 k),
      ))

-- `a & ~(2^k - 1)` on 64-bit words.
pub bit_and-not64 : (k a : ℕ) → k ≤ 64 → a < 2 ^ 64 → bit_and a (2 ^ 64 - 2 ^ k) ≡ a / 2 ^ k * 2 ^ k
bit_and-not64 k a le h = omega (
  arith,
  bit_and-mask k 64 a le,
  ap (λ (t : ℕ). t / 2 ^ k * 2 ^ k) (mod-eq_of_lt {n = a} {m = 2 ^ 64} h),
)

-- `a & (2^k - 1)`.
pub bit_and-low : (k a : ℕ) → bit_and a (2 ^ k - 1) ≡ a % 2 ^ k
bit_and-low k a = omega (arith, bit_and-mask 0 k a (omega arith))

pub bit_or-zero : (n a : ℕ) → a ≤ n → bit_or a 0 ≡ a
bit_or-zero zero zero h = refl
bit_or-zero zero (suc a) h = absurd (omega arith)
bit_or-zero (suc n) zero h = refl
bit_or-zero (suc n) (suc a) h =
    omega (arith, bit_or-digit (suc a) 0, bit_or-zero n (suc a / 2) (omega arith))

-- The bits of a multiple of `2^k` with low bits added.
pub bit_or-disjoint : (k q r : ℕ) → r < 2 ^ k → bit_or (q * 2 ^ k) r ≡ q * 2 ^ k + r
bit_or-disjoint zero q r h =
    let none_left : r ≡ 0 = omega arith in
    rw none_left (omega (arith, bit_or-zero (q * 1) (q * 1) (le_refl _)))
bit_or-disjoint (suc k) q r h = omega (
  arith,
  bit_or-digit (q * 2 ^ suc k) r,
  bit_or-disjoint k q (r / 2) (omega (arith, pow-suc 2 k)),
  ap (λ (t : ℕ). q * t) (pow-suc 2 k),
  ap (λ (t : ℕ). bit_or t (r / 2)) halved,
)
  where
    halved : q * 2 ^ suc k / 2 ≡ q * 2 ^ k
    halved = omega (arith, ap (λ (t : ℕ). q * t) (pow-suc 2 k))

-- An operation with a number below `2^k` stays within the low k bits.
split_half : (k q r : ℕ) → (q * 2 ^ suc k + r) / 2 ≡ q * 2 ^ k + r / 2
split_half k q r = omega (arith, ap (λ (t : ℕ). q * t) (pow-suc 2 k))

split_parity : (k q r : ℕ) → (q * 2 ^ suc k + r) % 2 ≡ r % 2
split_parity k q r = omega (arith, ap (λ (t : ℕ). q * t) (pow-suc 2 k))

pub bit_or-low_bits :
    (k q r s : ℕ) → r < 2 ^ k → s < 2 ^ k → bit_or (q * 2 ^ k + r) s ≡ q * 2 ^ k + bit_or r s
bit_or-low_bits zero q r s h h' =
    let er : r ≡ 0 = omega arith in
    let es : s ≡ 0 = omega arith in
    rw (er, es)
      (omega (arith, bit_or-zero (q * 1 + 0) (q * 1 + 0) (le_refl _), bit_or-zero 0 0 (le_refl _)))
bit_or-low_bits (suc k) q r s h h' = omega (
  arith,
  bit_or-digit (q * 2 ^ suc k + r) s,
  bit_or-digit r s,
  bit_or-low_bits k q (r / 2) (s / 2) (omega (arith, pow-suc 2 k)) (omega (arith, pow-suc 2 k)),
  ap (λ (t : ℕ). bit_or t (s / 2)) (split_half k q r),
  split_parity k q r,
  ap (λ (t : ℕ). q * t) (pow-suc 2 k),
)

pub bit_and-low_bits :
    (k q r s : ℕ) → r < 2 ^ k → s < 2 ^ k → bit_and (q * 2 ^ k + r) s ≡ bit_and r s
bit_and-low_bits zero q r s h h' =
    let er : r ≡ 0 = omega arith in
    let es : s ≡ 0 = omega arith in
    rw (er, es)
      (omega
        (arith, bit_and-zero (q * 1 + 0) (q * 1 + 0) (le_refl _), bit_and-zero 0 0 (le_refl _)))
bit_and-low_bits (suc k) q r s h h' = omega (
  arith,
  bit_and-digit (q * 2 ^ suc k + r) s,
  bit_and-digit r s,
  bit_and-low_bits k q (r / 2) (s / 2) (omega (arith, pow-suc 2 k)) (omega (arith, pow-suc 2 k)),
  ap (λ (t : ℕ). bit_and t (s / 2)) (split_half k q r),
  split_parity k q r,
)

bit_or_comm_fuel : (n a b : ℕ) → a + b ≤ n → bit_or a b ≡ bit_or b a
bit_or_comm_fuel zero zero zero h = refl
bit_or_comm_fuel zero zero (suc b) h = absurd (omega arith)
bit_or_comm_fuel zero (suc a) b h = absurd (omega arith)
bit_or_comm_fuel (suc n) zero zero h = refl
bit_or_comm_fuel (suc n) a b h =
    omega
      (arith, bit_or-digit a b, bit_or-digit b a, bit_or_comm_fuel n (a / 2) (b / 2) (omega arith))

pub bit_or_comm : (a b : ℕ) → bit_or a b ≡ bit_or b a
bit_or_comm a b = bit_or_comm_fuel (a + b) a b (omega arith)
