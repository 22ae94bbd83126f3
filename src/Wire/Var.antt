-- ===== src/Wire/Var.antt =====
-- The variable-length integers of protocol/wireint.go: WriteVarint, ReadVarint, WriteVarlong and
-- ReadVarlong. The Go arrays hold a first byte and the little-endian bytes of the number behind
-- it; here the first byte is computed apart, and `bytes` are the others, counted from 0.
pub mod Table
pub mod Trim
pub mod Shape
pub mod RoundTrip
pub mod Tame
pub mod Panics
mod Examples
use go_rsyncfs.Base.{
  ℕ, zero, suc, ◌+◌, ◌-◌, ◌*◌, ◌/◌, ◌%◌, ◌^◌, bit_and, bit_or, Bool, ◌&&◌, List, [], ◌∷◌, ◌++◌,
  Bytes, ltb, leb, ◌==◌, if◌then◌else◌, get_or, take, drop,
}
use go_rsyncfs.Io.{Reader, ◌>>=◌, return, fail, panic, read_full, read_byte}
use go_rsyncfs.Wire.Le.{le_bytes, le_value}

-- How many bytes follow, by the first byte over 4.
abbrev pub int_byte_extra : List ℕ
int_byte_extra =
    0 ∷ 0 ∷ 0 ∷ 0 ∷ 0 ∷ 0 ∷ 0 ∷ 0 ∷ 0 ∷ 0 ∷ 0 ∷ 0 ∷ 0 ∷ 0 ∷ 0 ∷ 0 ∷ 0 ∷ 0 ∷ 0 ∷ 0 ∷ 0 ∷ 0 ∷ 0 ∷ 0
    ∷ 0 ∷ 0 ∷ 0 ∷ 0 ∷ 0 ∷ 0 ∷ 0 ∷ 0 ∷ 1 ∷ 1 ∷ 1 ∷ 1 ∷ 1 ∷ 1 ∷ 1 ∷ 1 ∷ 1 ∷ 1 ∷ 1 ∷ 1 ∷ 1 ∷ 1 ∷ 1 ∷ 1
    ∷ 2 ∷ 2 ∷ 2 ∷ 2 ∷ 2 ∷ 2 ∷ 2 ∷ 2 ∷ 3 ∷ 3 ∷ 3 ∷ 3 ∷ 4 ∷ 4 ∷ 5 ∷ 6 ∷ []

pub extra_of : ℕ → ℕ
extra_of ch = get_or int_byte_extra (ch / 4) 0

-- `^b` and `b - 1` on a byte.
abbrev pub not_byte : ℕ → ℕ
not_byte b = 255 - b

abbrev pub pred_byte : ℕ → ℕ
pred_byte b = (b + 255) % 256

-- `for cnt > low && b[cnt] == 0 { cnt-- }`, where b[cnt] is the byte `cnt - 1` of the number.
pub trim : ℕ → ℕ → Bytes → ℕ
trim low zero bytes = 0
trim low (suc c) bytes =
    let shorter = trim low c bytes in
    if ltb low (suc c) && get_or bytes c 0 == 0 then shorter else suc c

-- `byte(1 << (7 - cnt + low))`
abbrev pub flag_bit : ℕ → ℕ → ℕ
flag_bit low cnt = 2 ^ (7 + low - cnt) % 256

-- What is written once `cnt` is known; `low` is 1 for WriteVarint, minBytes for WriteVarlong.
pub encode : ℕ → ℕ → Bytes → Bytes
encode low cnt bytes =
    let top = get_or bytes (cnt - 1) 0 in
    let bit = flag_bit low cnt in
    if leb bit top
    then not_byte (pred_byte bit) ∷ take cnt bytes
    else if ltb low cnt
    then bit_or top (not_byte (pred_byte (bit * 2 % 256))) ∷ take (cnt - 1) bytes
    else top ∷ take (cnt - 1) bytes

pub write_varint : ℕ → Bytes
write_varint x = let bytes = le_bytes 4 x in encode 1 (trim 1 4 bytes) bytes

pub write_varlong : ℕ → ℕ → Bytes
write_varlong x min_bytes =
    let bytes = le_bytes 8 x in encode min_bytes (trim min_bytes 8 bytes) bytes

-- `ch & (bit - 1)` with `bit := byte(1 << (8 - extra))`
abbrev pub masked : ℕ → ℕ → ℕ
masked ch extra = bit_and ch (pred_byte (2 ^ (8 - extra) % 256))

-- ReadVarint once `extra` is known. `u` has five bytes: `u[:6]` panics before anything is read,
-- and `u[5]` after it. Uint32 looks at the first four.
pub read_varint_extra : ℕ → ℕ → Reader ℕ
read_varint_extra ch zero = return ch
read_varint_extra ch extra = if ltb 5 extra then fail panic else do
  u ← read_full extra
  if ltb 4 extra then fail panic else return (le_value (take 4 (u ++ (masked ch extra ∷ []))))

pub read_varint : Reader ℕ
unfolding extra_of read_varint_extra
read_varint = do ch ← read_byte; read_varint_extra ch (extra_of ch)

-- ReadVarlong behind the first byte and the `min_bytes - 1` bytes `low` after it. `u` has nine
-- bytes, of which Uint64 looks at the first eight.
pub read_varlong_extra : ℕ → ℕ → Bytes → ℕ → Reader ℕ
read_varlong_extra min_bytes ch low zero = return (le_value (take 8 (low ++ (ch ∷ []))))
read_varlong_extra min_bytes ch low extra = do
  buf ← read_full extra
  if ltb 8 (min_bytes + extra - 1)
      then fail panic
      else return (le_value (take 8 (low ++ (buf ++ (masked ch extra ∷ [])))))

-- With no byte at all `b2[0]` panics.
pub read_varlong_head : ℕ → Bytes → Reader ℕ
unfolding extra_of read_varlong_extra
read_varlong_head min_bytes [] = fail panic
read_varlong_head min_bytes (ch ∷ low) = read_varlong_extra min_bytes ch low (extra_of ch)

pub read_varlong : ℕ → Reader ℕ
unfolding read_varlong_head
read_varlong min_bytes = do b2 ← read_full min_bytes; read_varlong_head min_bytes b2
