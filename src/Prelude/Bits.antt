-- ===== src/Prelude/Bits.antt =====
-- `bit_and` with a mask of low bits, which is a remainder; the kernel's alignment macros.
use Prim.Native.Nat.{
  ℕ, zero, suc, ◌+◌, ◌-◌, ◌*◌, ◌/◌, ◌%◌, ◌^◌, ◌≤◌, ◌<◌, min, max, bit_and, bit_or, digits,
  bit_and-bitwise, bit_or-bitwise,
}
use mathlib.Core.Path.{◌≡◌, ap, refl, ◌∙◌}
use native.Mathlib.Nat.{pow-suc, one-le-pow}
use mathlib.Core.Bool.{Bool, ◌||◌}
use native.Mathlib.Omega.{arith}
use native.Mathlib.Decide.{dec_le}
use amc_pci_dev.Prelude.Tests.{◌==◌}

mod_double : (a m : ℕ) → 0 < m → a % (2 * m) ≡ a / 2 % m * 2 + a % 2
mod_double a m h = grind arith

-- The digits of `a` under a mask of `k` ones, with fuel `n`.
digits_mask : (n k a : ℕ) → a ≤ n → digits (λ _. 0) min n a (2 ^ k - 1) ≡ a % 2 ^ k
digits_mask zero k zero h = omega (arith, one-le-pow k 2)
digits_mask (suc n) k zero h = omega (arith, one-le-pow k 2)
digits_mask zero k (suc a) h = absurd (omega arith)
digits_mask (suc n) zero (suc a) h = omega (arith, digits_mask n zero (suc a / 2) (omega arith))
digits_mask (suc n) (suc k) (suc a) h =
    let half : (2 ^ suc k - 1) / 2 ≡ 2 ^ k - 1 = omega (arith, pow-suc 2 k, one-le-pow k 2) in
    let low : (2 ^ suc k - 1) % 2 ≡ 1 = omega (arith, pow-suc 2 k, one-le-pow k 2) in
    let ih = digits_mask n k (suc a / 2) (omega arith) in
    let twice : 2 ^ suc k ≡ 2 * 2 ^ k = omega (arith, pow-suc 2 k) in
    rw (half, low, twice)
      (omega (arith, ih, mod_double (suc a) (2 ^ k) (one-le-pow k 2 (omega arith))))

pub bit_and_mask : (k a : ℕ) → bit_and a (2 ^ k - 1) ≡ a % 2 ^ k
bit_and_mask k a = bit_and-bitwise a (2 ^ k - 1) ∙ digits_mask a k a (omega arith)

-- `x & (a - 1)`, and the macros IS_ALIGNED, ALIGN_DOWN and ALIGN at 64 bits. ALIGN_DOWN clears the
-- low bits, and ALIGN does so behind the sum `x + a - 1`, which wraps.
abbrev pub low_bits : ℕ → ℕ → ℕ
low_bits x a = bit_and x (a - 1)

abbrev pub is_aligned : ℕ → ℕ → Bool
is_aligned x a = low_bits x a == 0

abbrev pub align_down : ℕ → ℕ → ℕ
align_down x a = x - low_bits x a

abbrev pub align : ℕ → ℕ → ℕ
align x a = align_down ((x + (a - 1)) % 2 ^ 64) a

-- Bit `k` of a number.
abbrev pub test_bit : ℕ → ℕ → Bool
test_bit zero a = a % 2 == 1
test_bit (suc k) a = test_bit k (a / 2)

-- The digits of an `or`, which do not depend on the fuel once it reaches the number.
abbrev or_digits : ℕ → ℕ → ℕ → ℕ
or_digits n a b = digits (λ y. y) max n a b

or_digits_enough : (n m a b : ℕ) → a ≤ n → a ≤ m → or_digits n a b ≡ or_digits m a b
or_digits_enough zero zero zero b p q = refl
or_digits_enough zero (suc m) zero b p q = refl
or_digits_enough (suc n) zero zero b p q = refl
or_digits_enough (suc n) (suc m) zero b p q = refl
or_digits_enough zero m (suc a) b p q = absurd (omega arith)
or_digits_enough (suc n) zero (suc a) b p q = absurd (omega arith)
or_digits_enough (suc n) (suc m) (suc a) b p q =
    omega (arith, or_digits_enough n m (suc a / 2) (b / 2) (omega arith) (omega arith))

bit_or-halves : (a b : ℕ) → bit_or a b ≡ 2 * bit_or (a / 2) (b / 2) + max (a % 2) (b % 2)
bit_or-halves zero b = omega (arith, bit_or-bitwise 0 b, bit_or-bitwise 0 (b / 2))
bit_or-halves (suc a) b = omega (
  arith,
  bit_or-bitwise (suc a) b,
  bit_or-bitwise (suc a / 2) (b / 2),
  or_digits_enough a (suc a / 2) (suc a / 2) (b / 2) (omega arith) (omega arith),
)

pub test_bit-bit_or : (k a b : ℕ) → test_bit k (bit_or a b) ≡ test_bit k a || test_bit k b
test_bit-bit_or zero a b = ground (arith, bit_or-halves a b)
test_bit-bit_or (suc k) a b =
    let half : bit_or a b / 2 ≡ bit_or (a / 2) (b / 2) = omega (arith, bit_or-halves a b) in
    rw half (test_bit-bit_or k (a / 2) (b / 2))

-- An `or` is 0 only if both numbers are.
pub bit_or-positive : (a b : ℕ) → 0 < b → 0 < bit_or a b
bit_or-positive a b h = positive b a b (omega arith) h
  where
    positive : (n a b : ℕ) → b ≤ n → 0 < b → 0 < bit_or a b
    positive zero a b p q = absurd (omega arith)
    positive (suc n) a b p q = elim (dec_le 2 b) [
      | yes two ↦
          omega (arith, bit_or-halves a b, positive n (a / 2) (b / 2) (omega arith) (omega arith))
      | no one ↦ omega (arith, bit_or-halves a b)
    ]

-- Where the bits do not overlap, `or` is a sum.
pub bit_or_shifted : (k a b : ℕ) → a < 2 ^ k → bit_or a (b * 2 ^ k) ≡ a + b * 2 ^ k
bit_or_shifted zero a b h = omega (
  arith,
  ap (λ x. bit_or x (b * 2 ^ 0)) (below_one a h),
  bit_or-halves 0 (b * 2 ^ 0),
  zero-bit_or (b * 2 ^ 0),
)
  where
    below_one : (a : ℕ) → a < 1 → a ≡ 0
    below_one a h = omega arith

    zero-bit_or : (b : ℕ) → bit_or 0 b ≡ b
    zero-bit_or b = bit_or-bitwise 0 b
bit_or_shifted (suc k) a b h =
    let twice : b * 2 ^ suc k ≡ 2 * (b * 2 ^ k) = omega (arith, ap (λ x. b * x) (pow-suc 2 k)) in
    let ih = bit_or_shifted k (a / 2) b (omega (arith, pow-suc 2 k)) in
    let half : b * 2 ^ suc k / 2 ≡ b * 2 ^ k = omega (arith, twice) in
    omega (arith, bit_or-halves a (b * 2 ^ suc k), twice, ih, ap (bit_or (a / 2)) half)
