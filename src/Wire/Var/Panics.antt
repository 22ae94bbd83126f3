-- ===== src/Wire/Var/Panics.antt =====
-- The first bytes at which ReadVarint and ReadVarlong index past their arrays.
use go_rsyncfs.Base.{
  ℕ, zero, suc, ◌≤◌, ◌<◌, ◌≡◌, ◌≢◌, refl, ap, [], ◌∷◌, ◌++◌, Bytes, length, ltb, leb, ◌==◌,
  if◌then◌else◌, ltb→lt, arith, inl, inr, Bool, true, Bool-cases,
}
use go_rsyncfs.Base.Bits.{holds_below, holds_below-at}
use go_rsyncfs.Io.{err, fail, panic, read_byte, bind}
use go_rsyncfs.Io.Laws.{read_full-append, read_full_cases}
use go_rsyncfs.Wire.Var.{extra_of, read_varint, read_varint_extra}

-- The table, as a test on the first byte.
extra_test : ℕ → Bool
extra_test ch =
    if ltb ch 0xf8
    then leb (extra_of ch) 4
    else if ltb ch 0xfc
    then extra_of ch == 5
    else extra_of ch == 6

extra_table : holds_below extra_test 256 ≡ true
unfolding holds_below extra_test extra_of
extra_table = refl

extra_of_ranges :
    (ch : ℕ)
    → ch < 256
    → (ch < 0xf8 → extra_of ch ≤ 4)
      × (0xf8 ≤ ch → ch < 0xfc → extra_of ch ≡ 5)
      × (0xfc ≤ ch → extra_of ch ≡ 6)
unfolding extra_test
extra_of_ranges ch h =
    let e = holds_below-at extra_test 256 ch extra_table h in
    (λ a. ground arith, λ a b. ground arith, λ a. ground arith)

few_extra_safe : (ch e : ℕ) (s rest : Bytes) → e ≤ 4 → read_varint_extra ch e s ≢ err panic rest
unfolding read_varint_extra
few_extra_safe ch zero s rest h = λ p. cc
few_extra_safe ch (suc e) s rest h = elim (read_full_cases (suc e) s) [
  | inl (u, t, r) ↦ λ p. ground arith
  | inr r ↦ λ p. elim s [ [] ↦ ground arith | _ ↦ ground arith ]
]

-- ReadVarint panics on a first byte from 0xF8 on that five more bytes follow: it reads past its
-- array of five.
pub read_varint_panics :
    (ch : ℕ) (five s : Bytes)
    → 0xf8 ≤ ch
    → ch < 256
    → length five ≡ 5
    → (rest : Bytes) × (read_varint (ch ∷ (five ++ s)) ≡ err panic rest)
unfolding read_varint read_byte
read_varint_panics ch five s lo h len =
    let (few, fifth, sixth) = extra_of_ranges ch h in
    elim (Bool-cases (ltb ch 0xfc)) [
      | inl a ↦ (
        s,
        rw (fifth lo (ltb→lt ch 0xfc a)) (
            unfold read_varint_extra in
            ap (λ r. bind r (λ u. fail panic)) (read_full-append 5 five s len)),
      )
      | inr a ↦ (five ++ s, rw (sixth (ground arith)) (unfold read_varint_extra in refl))
    ]

-- On a first byte below 0xF8 ReadVarint does not panic, whatever follows.
pub read_varint-ne-panic :
    (ch : ℕ) (s rest : Bytes) → ch < 0xf8 → read_varint (ch ∷ s) ≢ err panic rest
unfolding read_varint read_byte
read_varint-ne-panic ch s rest h =
    few_extra_safe ch (extra_of ch) s rest ((extra_of_ranges ch (omega arith)).0 h)
