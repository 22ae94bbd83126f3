-- ===== src/Base/Bits.antt =====
-- `|` of disjoint fields and `&` with low masks as arithmetic, and facts about all numbers below a
-- bound, checked by evaluation.
use Prim.Native.Nat.{
  ℕ, zero, suc, ◌+◌, ◌-◌, ◌*◌, ◌/◌, ◌%◌, ◌^◌, ◌≤◌, ◌<◌, min, max, bit_and, bit_or, digits,
  bit_and-bitwise, bit_or-bitwise,
}
use mathlib.Core.Path.{◌≡◌, refl, ap, sym, ◌∙◌}
use mathlib.Core.Bool.{Bool, true, ◌&&◌}
use native.Mathlib.Nat.{pow-suc, one-le-pow}
use native.Mathlib.Omega.{arith}
use go_rsyncfs.Base.Tests.{◌==◌, ==_iff}

-- A test that holds of every number below a bound.
unfoldable pub holds_below : (ℕ → Bool) → ℕ → Bool
holds_below test zero = true
holds_below test (suc bound) = holds_below test bound && test bound

pub holds_below-at :
    (test : ℕ → Bool) (bound x : ℕ) → holds_below test bound ≡ true → x < bound → test x ≡ true
unfolding holds_below
holds_below-at test zero x all lt = absurd (omega arith)
holds_below-at test (suc bound) x all lt = ground (arith, holds_below-at test bound x)

-- Fuel beyond the first number is never used.
module _ (base : ℕ → ℕ) (op : ℕ → ℕ → ℕ) where
  digits_of_zero : (fuel b : ℕ) → digits base op fuel 0 b ≡ base b
  digits_of_zero zero b = refl
  digits_of_zero (suc fuel) b = refl

  spare_fuel :
      (fuel more a b : ℕ)
      → a ≤ fuel
      → fuel ≤ more
      → digits base op more a b ≡ digits base op fuel a b
  spare_fuel fuel more zero b le spare = digits_of_zero more b ∙ sym (digits_of_zero fuel b)
  spare_fuel (suc fuel) (suc more) (suc a) b le spare =
      ap (λ (t : ℕ). t * 2 + op (suc a % 2) (b % 2))
        (spare_fuel fuel more (suc a / 2) (b / 2) (omega arith) (omega arith))
  spare_fuel fuel zero (suc a) b le spare = absurd (omega arith)
  spare_fuel zero (suc more) (suc a) b le spare = absurd (omega arith)

  lowest_digit :
      (a b : ℕ)
      → digits base op (suc a) (suc a) b
        ≡ digits base op (suc a / 2) (suc a / 2) (b / 2) * 2 + op (suc a % 2) (b % 2)
  lowest_digit a b =
      ap (λ (t : ℕ). t * 2 + op (suc a % 2) (b % 2))
        (spare_fuel (suc a / 2) a (suc a / 2) (b / 2) (omega arith) (omega arith))

pub or_step : (a b : ℕ) → bit_or a b ≡ bit_or (a / 2) (b / 2) * 2 + max (a % 2) (b % 2)
or_step (suc a) b =
    bit_or-bitwise (suc a) b
    ∙ lowest_digit (λ x. x) max a b
    ∙ ap (λ (t : ℕ). t * 2 + max (suc a % 2) (b % 2)) (sym (bit_or-bitwise (suc a / 2) (b / 2)))
or_step zero b = omega (arith, bit_or-bitwise 0 b, bit_or-bitwise 0 (b / 2))

pub and_step : (a b : ℕ) → bit_and a b ≡ bit_and (a / 2) (b / 2) * 2 + min (a % 2) (b % 2)
and_step (suc a) b =
    bit_and-bitwise (suc a) b
    ∙ lowest_digit (λ x. 0) min a b
    ∙ ap (λ (t : ℕ). t * 2 + min (suc a % 2) (b % 2)) (sym (bit_and-bitwise (suc a / 2) (b / 2)))
and_step zero b = omega (arith, bit_and-bitwise 0 b, bit_and-bitwise 0 (b / 2))

and_digits-zero : (n a : ℕ) → digits (λ x. 0) min n a 0 ≡ 0
and_digits-zero zero a = refl
and_digits-zero (suc n) zero = refl
and_digits-zero (suc n) (suc a) = omega (arith, and_digits-zero n (suc a / 2))

pub bit_and-zero : (a : ℕ) → bit_and a 0 ≡ 0
bit_and-zero a = bit_and-bitwise a 0 ∙ and_digits-zero a a

shift-suc : (k b : ℕ) → b * 2 ^ suc k ≡ b * 2 ^ k * 2
shift-suc k b = omega (arith, ap (λ (t : ℕ). b * t) (pow-suc 2 k))

-- `lo | (hi << k)` is a sum when `lo` fits `k` bits.
pub bit_or_shifted : (k lo hi : ℕ) → lo < 2 ^ k → bit_or lo (hi * 2 ^ k) ≡ lo + hi * 2 ^ k
bit_or_shifted zero zero hi h = omega (arith, bit_or-bitwise 0 (hi * 1))
bit_or_shifted zero (suc lo) hi h = absurd (omega arith)
bit_or_shifted (suc k) lo hi h = omega (
  arith,
  or_step lo (hi * 2 ^ suc k),
  shift-suc k hi,
  ap (bit_or (lo / 2)) half,
  bit_or_shifted k (lo / 2) hi (omega (arith, pow-suc 2 k)),
)
  where
    half : hi * 2 ^ suc k / 2 ≡ hi * 2 ^ k
    half = omega (arith, shift-suc k hi)

-- `a & (1 << k - 1)` is the remainder by `2 ^ k`.
and_low : (k lo hi : ℕ) → lo < 2 ^ k → bit_and (lo + hi * 2 ^ k) (2 ^ k - 1) ≡ lo
and_low zero lo hi h = omega (arith, bit_and-zero (lo + hi * 2 ^ 0))
and_low (suc k) lo hi h = omega (
  arith,
  and_step (lo + hi * 2 ^ suc k) (2 ^ suc k - 1),
  shift-suc k hi,
  pow-suc 2 k,
  one-le-pow k 2 (omega arith),
  ap (λ (t : ℕ). bit_and t ((2 ^ suc k - 1) / 2)) half,
  ap (bit_and (lo / 2 + hi * 2 ^ k)) half_mask,
  and_low k (lo / 2) hi (omega (arith, pow-suc 2 k)),
)
  where
    half : (lo + hi * 2 ^ suc k) / 2 ≡ lo / 2 + hi * 2 ^ k
    half = omega (arith, shift-suc k hi)

    half_mask : (2 ^ suc k - 1) / 2 ≡ 2 ^ k - 1
    half_mask = omega (arith, pow-suc 2 k, one-le-pow k 2 (omega arith))

pub bit_and_mask : (k a : ℕ) → bit_and a (2 ^ k - 1) ≡ a % 2 ^ k
bit_and_mask k a =
    ap (λ (t : ℕ). bit_and t (2 ^ k - 1)) split
    ∙ and_low k (a % 2 ^ k) (a / 2 ^ k) (omega (arith, one-le-pow k 2 (omega arith)))
  where
    split : a ≡ a % 2 ^ k + a / 2 ^ k * 2 ^ k
    split = grind arith

high_bit_test : ℕ → Bool
high_bit_test b = bit_and b 0x80 == b / 128 * 128

high_bit_table : holds_below high_bit_test 256 ≡ true
unfolding holds_below high_bit_test
high_bit_table = refl

pub bit_and_high_bit : (b : ℕ) → b < 256 → bit_and b 0x80 ≡ b / 128 * 128
unfolding high_bit_test
bit_and_high_bit b h = (==_iff _ _).0 (holds_below-at high_bit_test 256 b high_bit_table h)

or_comm_below : (n a b : ℕ) → a ≤ n → b ≤ n → bit_or a b ≡ bit_or b a
or_comm_below zero zero zero p q = refl
or_comm_below zero zero (suc b) p q = absurd (omega arith)
or_comm_below zero (suc a) b p q = absurd (omega arith)
or_comm_below (suc n) a b p q =
    omega
      (arith, or_step a b, or_step b a, or_comm_below n (a / 2) (b / 2) (omega arith) (omega arith))

pub bit_or_comm : (a b : ℕ) → bit_or a b ≡ bit_or b a
bit_or_comm a b = or_comm_below (a + b) a b (omega arith) (omega arith)
