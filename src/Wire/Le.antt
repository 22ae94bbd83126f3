-- ===== src/Wire/Le.antt =====
-- encoding/binary's little-endian layout, as protocol/wireint.go uses it: PutUint32 and its like
-- write `le_bytes`, Uint32 and its like read `le_value`.
use go_rsyncfs.Base.{
  ℕ, zero, suc, ◌+◌, ◌*◌, ◌/◌, ◌%◌, ◌^◌, ◌≤◌, ◌<◌, ◌≡◌, refl, [], ◌∷◌, ◌++◌, Bytes, length, All,
  take, take_all, ap, arith,
}
use native.Mathlib.Nat.{pow-suc}

abbrev pub IsByte : ℕ → Type 0
IsByte b = b < 256

-- The low `n` bytes of `v`, lowest first.
unfoldable pub le_bytes : ℕ → ℕ → Bytes
le_bytes zero v = []
le_bytes (suc n) v = (v % 256) ∷ le_bytes n (v / 256)

unfoldable pub le_value : Bytes → ℕ
le_value [] = 0
le_value (b ∷ s) = b + 256 * le_value s

pub length-le_bytes : (n v : ℕ) → length (le_bytes n v) ≡ n
unfolding le_bytes
length-le_bytes zero v = refl
length-le_bytes (suc n) v = omega (arith, length-le_bytes n (v / 256))

pub le_bytes-IsByte : (n v : ℕ) → All IsByte (le_bytes n v)
unfolding le_bytes
le_bytes-IsByte zero v = tt
le_bytes-IsByte (suc n) v = (omega arith, le_bytes-IsByte n (v / 256))

pub le_value-le_bytes : (n v : ℕ) → v < 256 ^ n → le_value (le_bytes n v) ≡ v
unfolding le_bytes le_value
le_value-le_bytes zero v h = omega arith
le_value-le_bytes (suc n) v h =
    omega (arith, le_value-le_bytes n (v / 256) (omega (arith, pow-suc 256 n)))

pub le_value-lt : (s : Bytes) → All IsByte s → le_value s < 256 ^ length s
unfolding le_value
le_value-lt [] h = omega arith
le_value-lt (b ∷ s) h = omega (arith, le_value-lt s h.1, pow-suc 256 (length s))

pub le_bytes-le_value : (s : Bytes) → All IsByte s → le_bytes (length s) (le_value s) ≡ s
unfolding le_bytes le_value
le_bytes-le_value [] h = refl
le_bytes-le_value (b ∷ s) h = ground (arith, le_bytes-le_value s h.1)

-- High zero bytes do not count.
pub le_value-append_zero : (s : Bytes) → le_value (s ++ (0 ∷ [])) ≡ le_value s
unfolding le_value
le_value-append_zero [] = refl
le_value-append_zero (b ∷ s) = omega (arith, le_value-append_zero s)

pub le_value-take_append_zero :
    (n : ℕ) (s : Bytes) → length s ≤ n → le_value (take n (s ++ (0 ∷ []))) ≡ le_value s
unfolding le_value
le_value-take_append_zero zero [] h = refl
le_value-take_append_zero zero (b ∷ s) h = absurd (omega arith)
le_value-take_append_zero (suc n) [] h = omega (arith, ap le_value (take_all n [] (omega arith)))
le_value-take_append_zero (suc n) (b ∷ s) h =
    omega (arith, le_value-take_append_zero n s (omega arith))
