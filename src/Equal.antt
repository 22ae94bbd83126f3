-- ===== src/Equal.antt =====
-- The equality of byte slices, which the source has three times: bytesEqual of server-send.go,
-- equalBytes of client-open.go and hashEqual of server-handshake.go.
use go_rsyncfs.Base.{
  ℕ, ◌≡◌, refl, ap, Bool, true, false, not, ◌&&◌, ◌==◌, [], ◌∷◌, Bytes, length, arith, Bool-cases,
  inl, inr, if◌then◌else◌,
}
use mathlib.Core.Path.{ap₂}

-- The loop over both slices.
unfoldable pub equal_bytes : Bytes → Bytes → Bool
equal_bytes (x ∷ xs) (y ∷ ys) = x == y && equal_bytes xs ys
equal_bytes [] ys = true
equal_bytes (x ∷ xs) [] = true

unfoldable pub bytes_equal : Bytes → Bytes → Bool
unfolding equal_bytes
bytes_equal a b = length a == length b && equal_bytes a b

equal_bytes→≡ : (a b : Bytes) → length a ≡ length b → equal_bytes a b ≡ true → a ≡ b
unfolding equal_bytes
equal_bytes→≡ [] [] len e = refl
equal_bytes→≡ [] (y ∷ ys) len e = absurd (omega arith)
equal_bytes→≡ (x ∷ xs) [] len e = absurd (omega arith)
equal_bytes→≡ (x ∷ xs) (y ∷ ys) len e =
    ap₂ (λ (h : ℕ) (t : Bytes). h ∷ t) (ground arith)
      (equal_bytes→≡ xs ys (omega arith) (ground arith))

pub bytes_equal→≡ : (a b : Bytes) → bytes_equal a b ≡ true → a ≡ b
unfolding bytes_equal
bytes_equal→≡ a b e = equal_bytes→≡ a b (ground arith) (ground arith)

equal_bytes_same : (a : Bytes) → equal_bytes a a ≡ true
unfolding equal_bytes
equal_bytes_same [] = refl
equal_bytes_same (x ∷ a) = ground (arith, equal_bytes_same a)

pub bytes_equal_same : (a : Bytes) → bytes_equal a a ≡ true
unfolding bytes_equal
bytes_equal_same a = ground (arith, equal_bytes_same a)

-- The loop of hashEqual, which looks at every byte.
unfoldable pub differs : ℕ → Bytes → Bytes → ℕ
differs result (x ∷ xs) (y ∷ ys) = differs (if not (x == y) then 1 else result) xs ys
differs result [] ys = result
differs result (x ∷ xs) [] = result

unfoldable pub hash_equal : Bytes → Bytes → Bool
hash_equal a b = length a == length b && differs 0 a b == 0

differs_stays : (a b : Bytes) → (differs 1 a b == 0) ≡ false
unfolding differs
differs_stays [] ys = refl
differs_stays (x ∷ xs) [] = refl
differs_stays (x ∷ xs) (y ∷ ys) = elim (Bool-cases (x == y)) [
  | inl same ↦ rw same (differs_stays xs ys)
  | inr other ↦ rw other (differs_stays xs ys)
]

differs-equal_bytes : (a b : Bytes) → (differs 0 a b == 0) ≡ equal_bytes a b
unfolding differs equal_bytes
differs-equal_bytes [] ys = refl
differs-equal_bytes (x ∷ xs) [] = refl
differs-equal_bytes (x ∷ xs) (y ∷ ys) = elim (Bool-cases (x == y)) [
  | inl same ↦ rw same (differs-equal_bytes xs ys)
  | inr other ↦ rw other (differs_stays xs ys)
]

-- hashEqual says what bytesEqual says, whatever place the slices differ in.
pub hash_equal-bytes_equal : (a b : Bytes) → hash_equal a b ≡ bytes_equal a b
unfolding hash_equal bytes_equal
hash_equal-bytes_equal a b = ap (λ (e : Bool). length a == length b && e) (differs-equal_bytes a b)
