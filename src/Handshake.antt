-- ===== src/Handshake.antt =====
-- protocol/handshake.go: lines, the compat flags, the choice of algorithms and the version exchange.
-- `strings.Fields` is over ASCII spaces here: the names of algorithms are ASCII.
pub mod Algorithms
pub mod Lines
pub mod Text
pub mod Greetings
pub mod Answers
mod Examples
use go_rsyncfs.Base.{
  ℕ, ◌+◌, ◌^◌, ◌%◌, Bool, true, false, not, ◌&&◌, ◌||◌, List, [], ◌∷◌, ◌++◌, Bytes, Option, none,
  some, ltb, leb, ◌==◌, if◌then◌else◌,
}
use go_rsyncfs.Io.{Error, Reader, ◌>>=◌, return, fail, ok, err, eof, Output, wrote, ◌>>>◌}
use go_rsyncfs.Wire.Fixed.{is_neg32, write_int32, read_int32}
use go_rsyncfs.Wire.Var.{write_varint, read_varint}
use go_rsyncfs.Wire.Vstring.{write_vstring, read_vstring}
use go_rsyncfs.Greet.{md5_name, md4_name, first_common}

-- readLine, with the bytes of the line so far.
unfoldable pub read_line_from : Bytes → Reader Bytes
read_line_from buf [] = err eof []
read_line_from buf (b ∷ s) =
    let more = read_line_from (buf ++ (b ∷ [])) s in if b == b'\n' then ok buf s else more

unfoldable pub read_line : Reader Bytes
read_line = read_line_from []

unfoldable pub write_line : Bytes → Output
write_line s = wrote s >>> wrote (b'\n' ∷ [])

unfoldable pub read_compat_flags : ℕ → Reader ℕ
read_compat_flags version = if ltb version 30 then return 0 else read_varint

unfoldable pub write_compat_flags : ℕ → ℕ → Bytes
write_compat_flags flags version = if ltb version 30 then [] else write_varint (flags % 2 ^ 32)

-- The names that the two sides settled on; an empty string stands for none.
pub record Settled : Type 0 where
  pub checksum : Bytes
  pub compress : Bytes

unfoldable pub default_algorithms : ℕ → Settled
default_algorithms version = record {
  checksum = if leb 30 version then md5_name else md4_name;
  compress = b'z' ∷ b'l' ∷ b'i' ∷ b'b' ∷ [];
}

-- `strings.Join(names, " ")`
unfoldable pub join : List Bytes → Bytes
join [] = []
join (d ∷ []) = d
join (d ∷ e ∷ names) = d ++ (b' ' ∷ join (e ∷ names))

unfoldable pub is_space : ℕ → Bool
is_space b = b == 32 || b == 9 || b == 10 || b == 11 || b == 12 || b == 13

abbrev pub field_so_far : Bytes → List Bytes
field_so_far [] = []
field_so_far (b ∷ s) = (b ∷ s) ∷ []

-- `strings.Fields`, with the field so far.
unfoldable pub fields_from : Bytes → Bytes → List Bytes
fields_from current [] = field_so_far current
fields_from current (b ∷ s) =
    let next = field_so_far current ++ fields_from [] s in
    let more = fields_from (current ++ (b ∷ [])) s in if is_space b then next else more

unfoldable pub fields : Bytes → List Bytes
fields s = fields_from [] s

pub pick_one : List Bytes → Bytes → Bytes
pick_one mine peer_list = first_common mine (fields peer_list)

-- `len(myCompressions) > 0`
abbrev pub any_names : List Bytes → Bool
any_names [] = false
any_names (d ∷ names) = true

-- What a side sends.
pub offer : List Bytes → List Bytes → Output
offer checksums compressions =
    write_vstring (join checksums)
    >>> (if any_names compressions then write_vstring (join compressions) else wrote [])

-- What it reads then.
pub settle : List Bytes → List Bytes → Reader Settled
settle checksums compressions = do
  peer_checksums ← read_vstring
  peer_compressions ← (if any_names compressions then read_vstring else return [])
  return (record {
    checksum = pick_one checksums peer_checksums;
    compress = if any_names compressions then pick_one compressions peer_compressions else [];
  })

after_offer : Option Error → Reader Settled → Reader Settled
after_offer none next = next
after_offer (some e) next = fail e

-- NegotiateAlgorithms: what it writes, and how it goes on.
pub negotiate_algorithms : List Bytes → List Bytes → Bytes × Reader Settled
negotiate_algorithms checksums compressions =
    let o = offer checksums compressions in (o.0, after_offer o.1 (settle checksums compressions))

-- ExchangeVersion: the lower of two int32s, of which ours is not negative.
pub exchange_version : ℕ → Bytes × Reader ℕ
exchange_version ours = (
  write_int32 ours,
  do
    theirs ← read_int32
    return (if not (is_neg32 theirs) && ltb ours theirs then ours else theirs),
)
