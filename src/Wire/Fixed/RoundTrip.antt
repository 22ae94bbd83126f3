-- ===== src/Wire/Fixed/RoundTrip.antt =====
-- What is written is read back, whatever follows it.
use go_rsyncfs.Base.{
  ℕ, ◌/◌, ◌%◌, ◌^◌, ◌<◌, ◌≡◌, refl, [], ◌∷◌, ◌++◌, Bytes, arith, inl, inr, ltb, leb, Bool-cases,
  ◌&&◌,
}
use go_rsyncfs.Base.Bits.{bit_or_shifted}
use go_rsyncfs.Io.{ok, bind, read_full}
use go_rsyncfs.Io.Laws.{read_full-append}
use go_rsyncfs.Wire.Le.{le_bytes, le_value, length-le_bytes, le_value-le_bytes}
use go_rsyncfs.Wire.Fixed.{
  IsU16, IsU32, IsU64, write_int32, read_int32, write_uint32, read_uint32, write_uint16,
  read_uint16, write_longint, read_longint, read_longint_rest,
}

-- `read_full` on a little-endian number.
pub read_full-le_bytes :
    (n v : ℕ) (rest : Bytes) → read_full n (le_bytes n v ++ rest) ≡ ok (le_bytes n v) rest
read_full-le_bytes n v rest = read_full-append n (le_bytes n v) rest (length-le_bytes n v)

pub read_int32-write_int32 :
    (v : ℕ) (rest : Bytes) → IsU32 v → read_int32 (write_int32 v ++ rest) ≡ ok v rest
unfolding read_int32 write_int32
read_int32-write_int32 v rest h =
    rw (read_full-le_bytes 4 v rest) (rw (le_value-le_bytes 4 v (omega arith)))

pub read_uint32-write_uint32 :
    (v : ℕ) (rest : Bytes) → IsU32 v → read_uint32 (write_uint32 v ++ rest) ≡ ok v rest
unfolding read_uint32 write_uint32
read_uint32-write_uint32 v rest h =
    rw (read_full-le_bytes 4 v rest) (rw (le_value-le_bytes 4 v (omega arith)))

pub read_uint16-write_uint16 :
    (v : ℕ) (rest : Bytes) → IsU16 v → read_uint16 (write_uint16 v ++ rest) ≡ ok v rest
unfolding read_uint16 write_uint16
read_uint16-write_uint16 v rest h =
    rw (read_full-append 2 ((v % 256) ∷ (v / 2 ^ 8 % 256) ∷ []) rest refl)
      (ground (arith, bit_or_shifted 8 (v % 256) (v / 2 ^ 8 % 256)))

longint_short :
    (x : ℕ) (rest : Bytes)
    → x < 2 ^ 31
    → bind (ok (le_bytes 4 (x % 2 ^ 32)) rest) (λ b. read_longint_rest (le_value b)) ≡ ok x rest
unfolding read_longint_rest
longint_short x rest h = rw (le_value-le_bytes 4 (x % 2 ^ 32) (omega arith)) (ground arith)

-- ReadLongInt reads back what WriteLongInt wrote, for every int64.
pub read_longint-write_longint :
    (x : ℕ) (rest : Bytes) → IsU64 x → read_longint (write_longint x ++ rest) ≡ ok x rest
unfolding read_longint write_longint
read_longint-write_longint x rest h = elim (Bool-cases (ltb x (2 ^ 63) && leb x 0x7fff_ffff)) [
  | inl small ↦
      rw small (rw (read_full-le_bytes 4 (x % 2 ^ 32) rest) (longint_short x rest (ground arith)))
  | inr large ↦ rw large (
      unfold le_value read_longint_rest read_full in
      rw (read_full-le_bytes 8 x rest) (rw (le_value-le_bytes 8 x (omega arith))))
]
