-- ===== src/Flist/Flags.antt =====
-- The transmit flags as bits: what computeXflags sets, and what arrives of it.
use go_rsyncfs.Base.{
  ℕ, zero, suc, ◌/◌, ◌^◌, ◌<◌, ◌≡◌, refl, sym, ap, ◌∙◌, bit_or, Bool, true, false, ◌&&◌, ◌||◌, ◌==◌,
  arith,
}
use native.Mathlib.Nat.{pow-suc}
use go_rsyncfs.Base.Bits.{or_step}
use go_rsyncfs.Base.TestBit.{test_bit, test_bit-bit_or, test_bit_pow, test_bit-zero, flag_is_set}
use go_rsyncfs.Flist.Entry.{has_flag, set_if}

pub has_flag-test_bit : (x k : ℕ) → has_flag x k ≡ test_bit k x
unfolding has_flag
has_flag-test_bit x k = flag_is_set k x

pub has_flag-zero : (k : ℕ) → has_flag 0 k ≡ false
has_flag-zero k = has_flag-test_bit 0 k ∙ test_bit-zero k

pub or-false : (a : Bool) → a || false ≡ a
or-false true = refl
or-false false = refl

or_comm : (a b : Bool) → a || b ≡ b || a
or_comm true true = refl
or_comm true false = refl
or_comm false true = refl
or_comm false false = refl

pub has_flag-bit_or_pow : (x j k : ℕ) → has_flag (bit_or x (2 ^ j)) k ≡ (k == j) || has_flag x k
has_flag-bit_or_pow x j k =
    has_flag-test_bit (bit_or x (2 ^ j)) k
    ∙ test_bit-bit_or k x (2 ^ j)
    ∙ ap (λ b. test_bit k x || b) (test_bit_pow k j)
    ∙ or_comm (test_bit k x) (k == j)
    ∙ ap (λ b. (k == j) || b) (sym (has_flag-test_bit x k))

pub has_flag-set_if :
    (c : Bool) (j x k : ℕ) → has_flag (set_if c j x) k ≡ ((k == j) && c) || has_flag x k
unfolding set_if
has_flag-set_if true j x k = has_flag-bit_or_pow x j k ∙ and_true (k == j)
  where
    and_true : (a : Bool) → a || has_flag x k ≡ (a && true) || has_flag x k
    and_true true = refl
    and_true false = refl
has_flag-set_if false j x k = and_false (k == j)
  where
    and_false : (a : Bool) → has_flag x k ≡ (a && false) || has_flag x k
    and_false true = refl
    and_false false = refl

pub bit_or-lt : (n a b : ℕ) → a < 2 ^ n → b < 2 ^ n → bit_or a b < 2 ^ n
bit_or-lt zero a b h k = omega (arith, or_step a b, ap (bit_or (a / 2)) zero_half, zero_or)
  where
    zero_half : b / 2 ≡ 0
    zero_half = omega arith

    zero_or : bit_or (a / 2) 0 ≡ 0
    zero_or = ap (λ (t : ℕ). bit_or t 0) half
      where
        half : a / 2 ≡ 0
        half = omega arith
bit_or-lt (suc n) a b h k = omega (
  arith,
  or_step a b,
  pow-suc 2 n,
  bit_or-lt n (a / 2) (b / 2) (omega (arith, pow-suc 2 n)) (omega (arith, pow-suc 2 n)),
)

-- Setting flag `j` keeps a word of `n` bits, if `j` is one of them.
pub set_if-lt : (c : Bool) (j x n : ℕ) → x < 2 ^ n → 2 ^ j < 2 ^ n → set_if c j x < 2 ^ n
unfolding set_if
set_if-lt true j x n h k = bit_or-lt n x (2 ^ j) h k
set_if-lt false j x n h k = h

pub set_if-unset : (c : Bool) (j x n : ℕ) → c ≡ false → x < 2 ^ n → set_if c j x < 2 ^ n
unfolding set_if
set_if-unset c j x n e h = rw e h
