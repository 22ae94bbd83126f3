-- ===== src/Wire/Fixed.antt =====
-- The fixed-width integers of protocol/wireint.go. An int32 or int64 is its bit pattern, a number
-- below 2 ^ 32 or 2 ^ 64, so that Go's conversions between intN and uintN are the identity.
pub mod RoundTrip
pub mod Tame
use go_rsyncfs.Base.{
  ℕ, ◌+◌, ◌-◌, ◌*◌, ◌^◌, ◌%◌, ◌/◌, ◌<◌, bit_or, get_or, Bool, not, ◌&&◌, ◌++◌, [], ◌∷◌, Bytes, ltb,
  leb, ◌==◌, if◌then◌else◌,
}
use go_rsyncfs.Io.{Reader, ◌>>=◌, return, read_full}
use go_rsyncfs.Wire.Le.{le_bytes, le_value}

abbrev pub IsU16 : ℕ → Type 0
IsU16 v = v < 2 ^ 16

abbrev pub IsU32 : ℕ → Type 0
IsU32 v = v < 2 ^ 32

abbrev pub IsU64 : ℕ → Type 0
IsU64 v = v < 2 ^ 64

-- `v < 0` for an int32.
abbrev pub is_neg32 : ℕ → Bool
is_neg32 v = leb (2 ^ 31) v

-- `int64(v)` for an int32 `v`: the sign is extended.
abbrev pub int64_of_int32 : ℕ → ℕ
int64_of_int32 v = if is_neg32 v then v + (2 ^ 64 - 2 ^ 32) else v

-- `a - b` and `-a` on int32.
abbrev pub sub32 : ℕ → ℕ → ℕ
sub32 a b = (a + (2 ^ 32 - b)) % 2 ^ 32

abbrev pub neg32 : ℕ → ℕ
neg32 a = (2 ^ 32 - a) % 2 ^ 32

unfoldable pub write_int32 : ℕ → Bytes
write_int32 v = le_bytes 4 v

unfoldable pub read_int32 : Reader ℕ
read_int32 = do b ← read_full 4; return (le_value b)

unfoldable pub write_uint32 : ℕ → Bytes
write_uint32 v = le_bytes 4 v

unfoldable pub read_uint32 : Reader ℕ
read_uint32 = do b ← read_full 4; return (le_value b)

-- `byte(v)` and `byte(v >> 8)`
unfoldable pub write_uint16 : ℕ → Bytes
write_uint16 v = (v % 256) ∷ (v / 2 ^ 8 % 256) ∷ []

-- `uint16(b[0]) | uint16(b[1])<<8`
unfoldable pub read_uint16 : Reader ℕ
read_uint16 = do b ← read_full 2; return (bit_or (get_or b 0 0) (get_or b 1 0 * 2 ^ 8 % 2 ^ 16))

-- An int64 `x` with 0 <= x <= 0x7FFFFFFF takes four bytes, any other the sentinel and eight.
unfoldable pub write_longint : ℕ → Bytes
write_longint x =
    if ltb x (2 ^ 63) && leb x 0x7fff_ffff
    then le_bytes 4 (x % 2 ^ 32)
    else (0xff ∷ 0xff ∷ 0xff ∷ 0xff ∷ []) ++ le_bytes 8 x

-- after `val32 := ...`
read_longint_rest : ℕ → Reader ℕ
read_longint_rest val32 =
    if not (val32 == 0xffff_ffff)
    then return (int64_of_int32 val32)
    else do b ← read_full 8; return (le_value b)

unfoldable pub read_longint : Reader ℕ
unfolding read_longint_rest
read_longint = do b ← read_full 4; read_longint_rest (le_value b)
