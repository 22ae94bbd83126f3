-- ===== src/Wire/Vstring.antt =====
-- The length-prefixed strings of protocol/vstring.go.
pub mod RoundTrip
use go_rsyncfs.Base.{
  ℕ, ◌+◌, ◌-◌, ◌*◌, ◌/◌, ◌%◌, ◌^◌, bit_and, bit_or, not, [], ◌∷◌, ◌++◌, Bytes, length, ltb, ◌==◌,
  if◌then◌else◌,
}
use go_rsyncfs.Io.{Reader, ◌>>=◌, return, read_full, read_byte, Output, wrote, refused, short_write}

pub write_vstring : Bytes → Output
write_vstring s =
    if ltb 0x7fff (length s)
    then refused short_write
    else if ltb 0x7f (length s)
    then wrote (bit_or (length s / 2 ^ 8 % 256) 0x80 ∷ (length s % 256) ∷ s)
    else wrote ((length s % 256) ∷ s)

-- The second length byte, if the first has its high bit set.
read_vstring_length : ℕ → Reader ℕ
unfolding read_byte
read_vstring_length b =
    if not (bit_and b 0x80 == 0)
    then (do c ← read_byte; return (bit_or c (bit_and b 0x7f * 2 ^ 8)))
    else return b

pub read_vstring : Reader Bytes
unfolding read_byte read_vstring_length
read_vstring = do
  b ← read_byte
  len ← read_vstring_length b
  if len == 0 then return [] else read_full len
