-- ===== src/Wire/Ndx.antt =====
-- The compressed file-list indices of protocol/wireint.go (proto >= 30): NdxState, WriteNdx and
-- ReadNdx. An index is the bit pattern of an int32.
pub mod RoundTrip
pub mod Sequence
pub mod Done
use go_rsyncfs.Base.{
  ℕ, ◌+◌, ◌-◌, ◌*◌, ◌/◌, ◌%◌, ◌^◌, bit_and, bit_or, not, ◌&&◌, ◌||◌, [], ◌∷◌, ◌++◌, Bytes, ltb, leb,
  ◌==◌, if◌then◌else◌, get_or,
}
use go_rsyncfs.Io.{Reader, ◌>>=◌, return, fail, unexpected_eof, read_full, read_byte}
use go_rsyncfs.Wire.Le.{le_value}
use go_rsyncfs.Wire.Fixed.{is_neg32, sub32, neg32}

-- NDxDone, -1.
abbrev pub ndx_done : ℕ
ndx_done = 2 ^ 32 - 1

pub record NdxState : Type 0 where
  pub prev_positive : ℕ
  pub prev_negative : ℕ

abbrev pub new_ndx_state : NdxState
new_ndx_state = record { prev_positive = 2 ^ 32 - 1; prev_negative = 1 }

-- The part that both signs share: a small difference in one byte, one up to 0x7FFF in two bytes
-- behind 0xFE, else the index itself in four.
pub ndx_bytes : ℕ → ℕ → Bytes
ndx_bytes ndx diff =
    if ltb diff 0xfe && ltb 0 diff
    then (diff % 256) ∷ []
    else if is_neg32 diff || ltb 0x7fff diff
    then 0xfe
      ∷ (bit_or (ndx / 2 ^ 24) 0x80 % 256)
      ∷ (ndx % 256)
      ∷ (ndx / 2 ^ 8 % 256)
      ∷ (ndx / 2 ^ 16 % 256)
      ∷ []
    else 0xfe ∷ (diff / 2 ^ 8 % 256) ∷ (diff % 256) ∷ []

pub write_ndx : NdxState → ℕ → Bytes × NdxState
unfolding ndx_bytes
write_ndx s ndx =
    if not (is_neg32 ndx)
    then (ndx_bytes ndx (sub32 ndx s.prev_positive), record s { prev_positive = ndx })
    else if ndx == ndx_done
    then (0 ∷ [], s)
    else (
      0xff ∷ ndx_bytes (neg32 ndx) (sub32 (neg32 ndx) s.prev_negative),
      record s { prev_negative = neg32 ndx },
    )

-- The four-byte form: the index behind its top byte, whose high bit is the mark.
read_ndx_absolute : Bytes → Reader ℕ
read_ndx_absolute b = do
  more ← read_full 2
  return (
      le_value
        (get_or b 1 0 ∷ get_or more 0 0 ∷ get_or more 1 0 ∷ bit_and (get_or b 0 0) 0x7f ∷ []))

-- Two bytes after 0xFE: the top bit tells an index from a difference.
pub read_ndx_long : ℕ → Bytes → Reader ℕ
unfolding read_ndx_absolute
read_ndx_long prev b =
    if not (bit_and (get_or b 0 0) 0x80 == 0)
    then read_ndx_absolute b
    else return ((get_or b 0 0 * 2 ^ 8 + get_or b 1 0 + prev) % 2 ^ 32)

-- `num`, before its check.
read_ndx_num : ℕ → ℕ → Reader ℕ
unfolding read_ndx_long
read_ndx_num first prev =
    if first == 0xfe
    then (do b ← read_full 2; read_ndx_long prev b)
    else return ((first + prev) % 2 ^ 32)

-- readNdxPositive, which returns the new value of its tracker.
pub read_ndx_positive : ℕ → ℕ → Reader ℕ
unfolding read_ndx_num
read_ndx_positive first prev = do
  num ← read_ndx_num first prev
  if ltb 0x7fff_ffff num then fail unexpected_eof else return num

read_ndx_negative : NdxState → Reader (ℕ × NdxState)
unfolding read_byte
read_ndx_negative s = do
  first ← read_byte
  num ← read_ndx_positive first s.prev_negative
  return (neg32 num, record s { prev_negative = num })

pub read_ndx : NdxState → Reader (ℕ × NdxState)
unfolding read_ndx_negative read_byte
read_ndx s = do
  b ← read_byte
  if b == 0xff then read_ndx_negative s else if b == 0 then return (ndx_done, s) else (do
    num ← read_ndx_positive b s.prev_positive
    return (num, record s { prev_positive = num }))
