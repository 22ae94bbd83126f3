-- ===== src/Base/TestBit.antt =====
-- Single bits of a number, for the flag words.
use Prim.Native.Nat.{ℕ, zero, suc, ◌/◌, ◌%◌, ◌^◌, bit_and, bit_or}
use mathlib.Core.Path.{◌≡◌, refl, ap, ◌∙◌}
use mathlib.Core.Bool.{Bool, false, not, ◌||◌}
use native.Mathlib.Nat.{pow-suc, one-le-pow}
use native.Mathlib.Omega.{arith}
use go_rsyncfs.Base.Tests.{◌==◌, if◌then◌else◌}
use go_rsyncfs.Base.Bits.{or_step, and_step, bit_and-zero}

abbrev pub test_bit : ℕ → ℕ → Bool
test_bit zero a = a % 2 == 1
test_bit (suc k) a = test_bit k (a / 2)

pub test_bit-zero : (k : ℕ) → test_bit k 0 ≡ false
test_bit-zero zero = refl
test_bit-zero (suc k) = test_bit-zero k

half_or : (a b : ℕ) → bit_or a b / 2 ≡ bit_or (a / 2) (b / 2)
half_or a b = omega (arith, or_step a b)

pub test_bit-bit_or : (k a b : ℕ) → test_bit k (bit_or a b) ≡ test_bit k a || test_bit k b
test_bit-bit_or zero a b = ground (arith, or_step a b)
test_bit-bit_or (suc k) a b = rw (half_or a b) (test_bit-bit_or k (a / 2) (b / 2))

half_pow : (k : ℕ) → 2 ^ suc k / 2 ≡ 2 ^ k
half_pow k = omega (arith, pow-suc 2 k)

pub test_bit_pow : (k j : ℕ) → test_bit k (2 ^ j) ≡ (k == j)
test_bit_pow zero zero = refl
test_bit_pow zero (suc j) = ground (arith, pow-suc 2 j)
test_bit_pow (suc k) zero = ground (arith, test_bit-zero k)
test_bit_pow (suc k) (suc j) = rw (half_pow j) (test_bit_pow k j ∙ ground arith)

pub bit_and_pow : (k a : ℕ) → bit_and a (2 ^ k) ≡ (if test_bit k a then 2 ^ k else 0)
bit_and_pow zero a = ground (arith, and_step a 1, bit_and-zero (a / 2))
bit_and_pow (suc k) a = ground (
  arith,
  and_step a (2 ^ suc k),
  pow-suc 2 k,
  ap (bit_and (a / 2)) (half_pow k),
  bit_and_pow k (a / 2),
)

-- The test `word & flag != 0`.
pub flag_is_set : (k a : ℕ) → not (bit_and a (2 ^ k) == 0) ≡ test_bit k a
flag_is_set k a = ground (arith, bit_and_pow k a, one-le-pow k 2)
