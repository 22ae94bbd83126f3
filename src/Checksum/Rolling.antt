-- ===== src/Checksum/Rolling.antt =====
-- Checksum1 against its definition by sums, and the law by which the window of it moves.
use go_rsyncfs.Base.{
  ℕ, suc, ◌+◌, ◌*◌, ◌/◌, ◌%◌, ◌^◌, ◌≡◌, refl, ap, ◌∙◌, [], ◌∷◌, ◌++◌, Bytes, length, arith,
  length-append,
}
use go_rsyncfs.Base.Bits.{bit_or_shifted, bit_and_mask}
use mathlib.Core.Path.{ap₂}
use go_rsyncfs.Checksum.{checksum1_tail, checksum1_loop, checksum1}

-- The sum of the bytes, and the sum of the sums of all prefixes: each byte counted once for itself
-- and once for each byte behind it.
unfoldable pub plain_sum : Bytes → ℕ
plain_sum [] = 0
plain_sum (b ∷ s) = b + plain_sum s

unfoldable pub weighted_sum : Bytes → ℕ
weighted_sum [] = 0
weighted_sum (b ∷ s) = suc (length s) * b + weighted_sum s

loop-tail : (s1 s2 : ℕ) (s : Bytes) → checksum1_loop s1 s2 s ≡ checksum1_tail s1 s2 s
unfolding checksum1_loop checksum1_tail
loop-tail s1 s2 (a ∷ b ∷ c ∷ d ∷ s) =
    loop-tail ((s1 + (a + b + c + d)) % 2 ^ 32) ((s2 + (4 * (s1 + a) + 3 * b + 2 * c + d)) % 2 ^ 32)
      s
    ∙ ap₂ (λ (x y : ℕ). checksum1_tail x y s) (omega arith) (omega arith)
loop-tail s1 s2 [] = refl
loop-tail s1 s2 (a ∷ []) = refl
loop-tail s1 s2 (a ∷ b ∷ []) = refl
loop-tail s1 s2 (a ∷ b ∷ c ∷ []) = refl

tail-sums :
    (s1 s2 : ℕ) (s : Bytes)
    → checksum1_tail (s1 % 2 ^ 32) (s2 % 2 ^ 32) s
      ≡ ((s1 + plain_sum s) % 2 ^ 32, (s2 + length s * s1 + weighted_sum s) % 2 ^ 32)
unfolding checksum1_tail plain_sum weighted_sum
tail-sums s1 s2 [] = ground arith
tail-sums s1 s2 (b ∷ s) =
    ap₂ (λ (x y : ℕ). checksum1_tail x y s) (omega arith) (omega arith)
    ∙ tail-sums (s1 + b) (s2 + (s1 + b)) s
    ∙ ap₂ (λ (x y : ℕ). (x % 2 ^ 32, y % 2 ^ 32)) (omega arith) (omega arith)

-- The loops of Checksum1 from 0.
pub checksum1_loop-sums :
    (s : Bytes) → checksum1_loop 0 0 s ≡ (plain_sum s % 2 ^ 32, weighted_sum s % 2 ^ 32)
checksum1_loop-sums s =
    loop-tail 0 0 s
    ∙ tail-sums 0 0 s
    ∙ ap₂ (λ (x y : ℕ). (x % 2 ^ 32, y % 2 ^ 32)) (omega arith) (omega arith)

-- Checksum1 is the sum of the bytes in its low half and their weighted sum in its high half, each
-- modulo 2 ^ 16, for data of any length.
pub checksum1-sums :
    (s : Bytes) → checksum1 s ≡ plain_sum s % 2 ^ 16 + weighted_sum s % 2 ^ 16 * 2 ^ 16
unfolding checksum1
checksum1-sums s = rw (checksum1_loop-sums s) (
    ground (
      arith,
      bit_and_mask 16 (plain_sum s % 2 ^ 32),
      bit_or_shifted 16 (plain_sum s % 2 ^ 16) (weighted_sum s % 2 ^ 16),
    ))

pub plain_sum-append : (s t : Bytes) → plain_sum (s ++ t) ≡ plain_sum s + plain_sum t
unfolding plain_sum
plain_sum-append [] t = omega arith
plain_sum-append (b ∷ s) t = omega (arith, plain_sum-append s t)

pub weighted_sum-snoc :
    (s : Bytes) (y : ℕ) → weighted_sum (s ++ (y ∷ [])) ≡ weighted_sum s + plain_sum s + y
unfolding weighted_sum plain_sum
weighted_sum-snoc [] y = omega arith
weighted_sum-snoc (b ∷ s) y = omega (
  arith,
  weighted_sum-snoc s y,
  length-append {0} s (y ∷ []),
  ap (λ (k : ℕ). k * b) (length-append {0} s (y ∷ [])),
)

abbrev pub low_half : ℕ → ℕ
low_half v = v % 2 ^ 16

abbrev pub high_half : ℕ → ℕ
high_half v = v / 2 ^ 16

-- Moving the window by one byte: the low half loses the old byte and gains the new one, the high
-- half loses the old byte once for each byte of the window and gains the new low half.
pub checksum1_roll :
    (x y : ℕ) (w : Bytes)
    → ((low_half (checksum1 (w ++ (y ∷ []))) + x) % 2 ^ 16
        ≡ (low_half (checksum1 (x ∷ w)) + y) % 2 ^ 16)
      × ((high_half (checksum1 (w ++ (y ∷ []))) + (length w + 1) * x) % 2 ^ 16
          ≡ (high_half (checksum1 (x ∷ w)) + low_half (checksum1 (w ++ (y ∷ [])))) % 2 ^ 16)
unfolding plain_sum weighted_sum
checksum1_roll x y w =
    let facts : (plain_sum (w ++ (y ∷ [])) + x ≡ plain_sum (x ∷ w) + y)
        × (weighted_sum (w ++ (y ∷ [])) + suc (length w) * x
            ≡ weighted_sum (x ∷ w) + plain_sum (w ++ (y ∷ []))) =
      (
        omega (arith, plain_sum-append w (y ∷ [])),
        omega (arith, plain_sum-append w (y ∷ []), weighted_sum-snoc w y),
      ) in
    rw (checksum1-sums (w ++ (y ∷ [])), checksum1-sums (x ∷ w)) (omega arith, omega arith)
