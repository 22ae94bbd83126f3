-- ===== src/Wire/Var/Trim.antt =====
-- The loop that drops high zero bytes keeps the number.
use go_rsyncfs.Base.{
  ℕ, zero, suc, ◌≤◌, ◌<◌, ◌≡◌, refl, sym, ap, ◌∙◌, [], ◌∷◌, ◌++◌, Bytes, length, take, take-suc,
  get_or, ltb, ◌==◌, arith, inl, inr, Bool-cases, ◌&&◌,
}
use go_rsyncfs.Wire.Le.{le_value, le_value-append_zero}
use go_rsyncfs.Wire.Var.{trim}

pub trim_bounds :
    (low n : ℕ) (bytes : Bytes)
    → 0 < low
    → low ≤ n
    → (low ≤ trim low n bytes) × (trim low n bytes ≤ n)
unfolding trim
trim_bounds low zero bytes p h = omega arith
trim_bounds low (suc n) bytes p h = ground (arith, trim_bounds low n bytes p)

pub le_value-trim :
    (low n : ℕ) (bytes : Bytes)
    → n ≤ length bytes
    → le_value (take (trim low n bytes) bytes) ≡ le_value (take n bytes)
unfolding trim
le_value-trim low zero bytes h = refl
le_value-trim low (suc n) bytes h = elim (Bool-cases (ltb low (suc n) && get_or bytes n 0 == 0)) [
  | inl drop ↦ rw drop (
      le_value-trim low n bytes (omega arith)
      ∙ sym (
          ap le_value
            (take-suc n bytes 0 h ∙ ap (λ (b : ℕ). take n bytes ++ (b ∷ [])) (ground arith))
          ∙ le_value-append_zero (take n bytes)))
  | inr keep ↦ rw keep
]
