-- ===== src/Wire/Var/Table.antt =====
-- The first byte that `encode` writes, read by the table: checked for every top byte.
use go_rsyncfs.Base.{
  ℕ, ◌+◌, ◌-◌, ◌*◌, ◌%◌, ◌^◌, ◌<◌, ◌≡◌, refl, Bool, true, ◌&&◌, bit_or, ltb, ◌==◌, ==_iff,
  if◌then◌else◌, arith,
}
use go_rsyncfs.Base.Bits.{holds_below, holds_below-at}
use go_rsyncfs.Wire.Var.{extra_of, not_byte, pred_byte, masked}

-- `e` is the number of bytes beyond the least; the flag bit is then 2 ^ (7 - e).
full_test : ℕ → Bool
full_test e =
    let first = not_byte (pred_byte (2 ^ (7 - e) % 256)) in
    extra_of first == e + 1 && masked first (e + 1) == 0

top_test : ℕ → ℕ → Bool
top_test e top =
    let first = bit_or top (not_byte (pred_byte (2 ^ (7 - e) % 256 * 2 % 256))) in
    if ltb top (2 ^ (7 - e)) && ltb 0 e then extra_of first == e && masked first e == top else true

small_test : ℕ → Bool
small_test top = extra_of top == 0

full_table : holds_below full_test 6 ≡ true
unfolding holds_below full_test extra_of
full_table = refl

top_table : holds_below (λ e. holds_below (top_test e) 256) 6 ≡ true
unfolding holds_below top_test extra_of
top_table = refl

small_table : holds_below small_test 128 ≡ true
unfolding holds_below small_test extra_of
small_table = refl

-- The number needs a byte more: the first byte holds only the count.
pub extra_of-full :
    (e : ℕ)
    → e < 6
    → (extra_of (not_byte (pred_byte (2 ^ (7 - e) % 256))) ≡ e + 1)
      × (masked (not_byte (pred_byte (2 ^ (7 - e) % 256))) (e + 1) ≡ 0)
unfolding full_test
extra_of-full e h = ground (arith, holds_below-at full_test 6 e full_table h)

-- The first byte holds the count and the top byte.
pub extra_of-top :
    (e top : ℕ)
    → e < 6
    → 0 < e
    → top < 256
    → top < 2 ^ (7 - e)
    → (extra_of (bit_or top (not_byte (pred_byte (2 ^ (7 - e) % 256 * 2 % 256)))) ≡ e)
      × (masked (bit_or top (not_byte (pred_byte (2 ^ (7 - e) % 256 * 2 % 256)))) e ≡ top)
unfolding top_test
extra_of-top e top h pos byte small = ground (
  arith,
  holds_below-at (top_test e) 256 top
      (holds_below-at (λ e. holds_below (top_test e) 256) 6 e top_table h) byte,
)

pub extra_of_small : (top : ℕ) → top < 128 → extra_of top ≡ 0
unfolding small_test
extra_of_small top h = (==_iff _ _).0 (holds_below-at small_test 128 top small_table h)

flag_test : ℕ → Bool
flag_test e = 2 ^ (7 - e) % 256 == 2 ^ (7 - e)

flag_table : holds_below flag_test 6 ≡ true
unfolding holds_below flag_test
flag_table = refl

pub flag_fits : (e : ℕ) → e < 6 → 2 ^ (7 - e) % 256 ≡ 2 ^ (7 - e)
unfolding flag_test
flag_fits e h = (==_iff _ _).0 (holds_below-at flag_test 6 e flag_table h)
