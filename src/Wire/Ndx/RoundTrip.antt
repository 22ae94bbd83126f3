-- ===== src/Wire/Ndx/RoundTrip.antt =====
-- A reader and a writer of indices that start in the same state stay in the same state.
use go_rsyncfs.Base.{
  ℕ, ◌+◌, ◌/◌, ◌%◌, ◌^◌, ◌≤◌, ◌<◌, ◌≡◌, ◌≢◌, refl, ◌∙◌, [], ◌∷◌, ◌++◌, Bytes, ltb, ◌==◌, arith, inl,
  inr, Bool-cases, ◌&&◌, ◌||◌, not, bit_or,
}
use go_rsyncfs.Base.Bits.{bit_or_shifted, bit_and_mask, bit_and_high_bit}
use go_rsyncfs.Io.{ok, read_full, read_byte}
use go_rsyncfs.Io.Laws.{read_full-append}
use go_rsyncfs.Wire.Le.{le_value}
use go_rsyncfs.Wire.Fixed.{IsU32, neg32, sub32, is_neg32}
use go_rsyncfs.Wire.Ndx.{
  NdxState, ndx_done, ndx_bytes, write_ndx, read_ndx_long, read_ndx_positive, read_ndx,
}

read_full_two : (a b : ℕ) (rest : Bytes) → read_full 2 (a ∷ b ∷ rest) ≡ ok (a ∷ b ∷ []) rest
read_full_two a b rest = read_full-append 2 (a ∷ b ∷ []) rest refl

absolute_first : (ndx : ℕ) → ndx < 2 ^ 31 → bit_or (ndx / 2 ^ 24) 0x80 % 256 ≡ ndx / 2 ^ 24 + 128
absolute_first ndx h = omega (arith, bit_or_shifted 7 (ndx / 2 ^ 24) 1)

read_long_positive :
    (prev a b num : ℕ) (rest rest' : Bytes)
    → read_ndx_long prev (a ∷ b ∷ []) rest ≡ ok num rest'
    → num < 2 ^ 31
    → read_ndx_positive 0xfe prev (a ∷ b ∷ rest) ≡ ok num rest'
unfolding read_ndx_positive
read_long_positive prev a b num rest rest' e h = ground (arith, read_full_two a b rest)

module _ (ndx prev : ℕ) (rest : Bytes) (h : ndx < 2 ^ 31) (p : IsU32 prev) where
  long_absolute :
      read_ndx_long prev
        ((ndx / 2 ^ 24 + 128) ∷ (ndx % 256) ∷ [])
        ((ndx / 2 ^ 8 % 256) ∷ (ndx / 2 ^ 16 % 256) ∷ rest)
      ≡ ok ndx rest
  unfolding read_ndx_long le_value
  long_absolute = ground (
    arith,
    bit_and_high_bit (ndx / 2 ^ 24 + 128),
    bit_and_mask 7 (ndx / 2 ^ 24 + 128),
    read_full_two (ndx / 2 ^ 8 % 256) (ndx / 2 ^ 16 % 256) rest,
  )

  long_difference :
      sub32 ndx prev ≤ 0x7fff
      → read_ndx_long prev ((sub32 ndx prev / 2 ^ 8 % 256) ∷ (sub32 ndx prev % 256) ∷ []) rest
        ≡ ok ndx rest
  unfolding read_ndx_long
  long_difference s = ground (arith, bit_and_high_bit (sub32 ndx prev / 2 ^ 8 % 256))

  -- The first byte of an index is neither the end marker nor the sign, and the rest reads back.
  ndx_bytes-shape :
      (first : ℕ) × (body : Bytes) × (ndx_bytes ndx (sub32 ndx prev) ≡ first ∷ body)
      × (0 < first)
      × (first < 0xff)
      × (read_ndx_positive first prev (body ++ rest) ≡ ok ndx rest)
  unfolding ndx_bytes read_ndx_positive
  ndx_bytes-shape = elim (Bool-cases (ltb (sub32 ndx prev) 0xfe && ltb 0 (sub32 ndx prev))) [
    | inl near ↦ (sub32 ndx prev % 256, [], rw near, ground arith, ground arith, ground arith)
    | inr far ↦ elim (Bool-cases (is_neg32 (sub32 ndx prev) || ltb 0x7fff (sub32 ndx prev))) [
      | inl big ↦ (
        0xfe,
        (ndx / 2 ^ 24 + 128) ∷ (ndx % 256) ∷ (ndx / 2 ^ 8 % 256) ∷ (ndx / 2 ^ 16 % 256) ∷ [],
        rw (far, big, absolute_first ndx h),
        omega arith,
        omega arith,
        read_long_positive prev _ _ ndx _ rest long_absolute h,
      )
      | inr small ↦ (
        0xfe,
        (sub32 ndx prev / 2 ^ 8 % 256) ∷ (sub32 ndx prev % 256) ∷ [],
        rw (far, small),
        omega arith,
        omega arith,
        read_long_positive prev _ _ ndx rest rest (long_difference (ground arith)) h,
      )
    ]
  ]

-- An index that WriteNdx can send: any int32 but the least, which has no negation.
abbrev pub IsNdx : ℕ → Type 0
IsNdx ndx = IsU32 ndx × (ndx ≢ 2 ^ 31)

abbrev pub InRange : NdxState → Type 0
InRange s = IsU32 s.prev_positive × IsU32 s.prev_negative

-- What ReadNdx does behind a first byte that is neither the sign nor the end marker.
read_ndx_plain :
    (s : NdxState) (first num : ℕ) (body rest : Bytes)
    → 0 < first
    → first < 0xff
    → read_ndx_positive first s.prev_positive (body ++ rest) ≡ ok num rest
    → read_ndx s (first ∷ (body ++ rest)) ≡ ok (num, record s { prev_positive = num }) rest
unfolding read_ndx read_byte
read_ndx_plain s first num body rest lo hi e = ground (arith, e)

read_ndx_signed :
    (s : NdxState) (first num : ℕ) (body rest : Bytes)
    → read_ndx_positive first s.prev_negative (body ++ rest) ≡ ok num rest
    → read_ndx s (0xff ∷ first ∷ (body ++ rest))
      ≡ ok (neg32 num, record s { prev_negative = num }) rest
unfolding read_ndx read_byte
read_ndx_signed s first num body rest e = ground (arith, e)

-- ReadNdx returns the index that WriteNdx sent from the same state, with the same next state.
pub read_ndx-write_ndx :
    (s : NdxState) (ndx : ℕ) (rest : Bytes)
    → InRange s
    → IsNdx ndx
    → read_ndx s ((write_ndx s ndx).0 ++ rest) ≡ ok (ndx, (write_ndx s ndx).1) rest
unfolding write_ndx
read_ndx-write_ndx s ndx rest r v = elim (Bool-cases (not (is_neg32 ndx))) [
  | inl plus ↦
      let (first, body, shape, lo, hi, e) =
        ndx_bytes-shape ndx s.prev_positive rest (ground arith) r.0 in
      rw (plus, shape) (read_ndx_plain s first ndx body rest lo hi e)
  | inr minus ↦ elim (Bool-cases (ndx == ndx_done)) [
    | inl last ↦ rw (minus, last) (unfold read_ndx read_byte in ground arith)
    | inr other ↦
        let (first, body, shape, lo, hi, e) =
          ndx_bytes-shape (neg32 ndx) s.prev_negative rest (ground arith) r.1 in
        rw (minus, other, shape) (read_ndx_signed s first (neg32 ndx) body rest e ∙ ground arith)
  ]
]
