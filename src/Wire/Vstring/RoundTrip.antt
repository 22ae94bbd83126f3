-- ===== src/Wire/Vstring/RoundTrip.antt =====
-- ReadVstring reads back what WriteVstring wrote.
use go_rsyncfs.Base.{
  ℕ, zero, suc, ◌+◌, ◌/◌, ◌%◌, ◌^◌, ◌≤◌, ◌≡◌, refl, [], ◌∷◌, ◌++◌, Bytes, length, ltb, ◌==◌,
  if◌then◌else◌, arith, inl, inr, Bool-cases, none,
}
use go_rsyncfs.Base.Bits.{bit_or_shifted, bit_and_mask, bit_and_high_bit}
use go_rsyncfs.Io.{ok, read_full}
use go_rsyncfs.Io.Laws.{read_full-append}
use go_rsyncfs.Wire.Vstring.{write_vstring, read_vstring}

read_body :
    (len : ℕ) (s rest : Bytes)
    → length s ≡ len
    → (if len == 0 then ok [] (s ++ rest) else read_full len (s ++ rest)) ≡ ok s rest
read_body zero [] rest h = refl
read_body zero (b ∷ s) rest h = absurd (omega arith)
read_body (suc len) s rest h = ground (arith, read_full-append (suc len) s rest h)

-- A string of at most 0x7FFF bytes is read back, and what follows it is left.
pub read_vstring-write_vstring :
    (s rest : Bytes) → length s ≤ 0x7fff → read_vstring ((write_vstring s).0 ++ rest) ≡ ok s rest
unfolding read_vstring write_vstring
read_vstring-write_vstring s rest h = elim (Bool-cases (ltb 0x7f (length s))) [
  | inl long ↦ ground (
    arith,
    bit_or_shifted 7 (length s / 2 ^ 8) 1,
    bit_and_high_bit (length s / 2 ^ 8 + 128),
    bit_and_mask 7 (length s / 2 ^ 8 + 128),
    bit_or_shifted 8 (length s % 256) (length s / 2 ^ 8),
    read_body (length s) s rest refl,
  )
  | inr short ↦ ground (arith, bit_and_high_bit (length s), read_body (length s) s rest refl)
]

pub write_vstring-ok : (s : Bytes) → length s ≤ 0x7fff → (write_vstring s).1 ≡ none
unfolding write_vstring
write_vstring-ok s h = ground arith
