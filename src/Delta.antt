-- ===== src/Delta.antt =====
-- protocol/delta.go: the simple delta stream. A literal is an int32 length and the data, a match an
-- int32 -(index + 1), the end an int32 0.
pub mod Total
pub mod Steps
pub mod RoundTrip
mod Examples
use go_rsyncfs.Base.{
  ℕ, zero, suc, ◌+◌, ◌-◌, ◌*◌, ◌%◌, ◌^◌, min, Bool, List, [], ◌∷◌, ◌++◌, Bytes, length, take, drop,
  ltb, ◌==◌, if◌then◌else◌,
}
use go_rsyncfs.Io.{Reader, ◌>>=◌, return, fail, panic, out_of_fuel, read_full}
use go_rsyncfs.Wire.Le.{le_bytes, le_value}
use go_rsyncfs.Wire.Fixed.{is_neg32}

-- deltaChunkSize
abbrev pub chunk_size : ℕ
chunk_size = 32 * 1024

-- A DeltaToken whose Literal is not nil, and one whose Literal is nil.
pub data Token : Type 0 where
  literal : Bytes → Token
  block : ℕ → Token

-- The loop of WriteLiteral: a round takes at least a byte, so `length s` rounds are enough.
pub write_chunks : ℕ → ℕ → Bytes → Bytes
write_chunks size fuel [] = []
write_chunks size zero (b ∷ s) = []
write_chunks size (suc fuel) (b ∷ s) =
    let n = min size (length (b ∷ s)) in
    le_bytes 4 n ++ (take n (b ∷ s) ++ write_chunks size fuel (drop n (b ∷ s)))

pub write_literal : Bytes → Bytes
write_literal s = write_chunks chunk_size (length s) s

-- `uint32(-blockIdx-1)`, on the bit pattern of the int32.
pub write_match : ℕ → Bytes
write_match index = le_bytes 4 ((2 ^ 32 + (2 ^ 32 - 1) - index) % 2 ^ 32)

pub write_end : Bytes
write_end = le_bytes 4 0

pub write_token : Token → Bytes
unfolding write_literal write_match
write_token (literal s) = write_literal s
write_token (block index) = write_match index

pub write_delta_stream : List Token → Bytes
write_delta_stream [] = write_end
write_delta_stream (t ∷ ts) = write_token t ++ write_delta_stream ts

-- The reader's state: `buf_len` is the length of its buffer, whose bytes are only ever those that
-- the last call returned.
pub record DeltaReader : Type 0 where
  pub residue : ℕ
  pub buf_len : ℕ
  pub buf_off : ℕ

abbrev pub new_delta_reader : DeltaReader
new_delta_reader = record { residue = 0; buf_len = 0; buf_off = 0 }

-- What ReadToken returns when it returns no error.
pub data Event : Type 0 where
  token : Token → Event
  end : Event

-- The next chunk of the current literal, `r.buf[r.bufOff : r.bufOff+n]`. After an error the state
-- is not kept: a session ends with it.
pub read_chunk : DeltaReader → Reader (Event × DeltaReader)
read_chunk r =
    let n = min chunk_size r.residue in
    if ltb r.buf_len (r.buf_off + n) then fail panic else (do
      s ← read_full n
      return (token (literal s), record r { residue = r.residue - n; buf_off = r.buf_off + n }))

-- A token by its header.
pub read_header : DeltaReader → ℕ → Reader (Event × DeltaReader)
read_header r val =
    if val == 0
    then return (end, r)
    else if is_neg32 val
    then return (token (block ((2 ^ 32 - 1) - val)), r)
    else read_chunk (record { residue = val; buf_len = val; buf_off = 0 })

pub read_token : DeltaReader → Reader (Event × DeltaReader)
read_token r =
    if ltb 0 r.residue then read_chunk r else (do b ← read_full 4; read_header r (le_value b))

-- The loop of ParseDeltaStream.
unfoldable pub parse_tokens : ℕ → DeltaReader → List Token → Reader (List Token)
parse_tokens zero r tokens = fail out_of_fuel
parse_tokens (suc fuel) r tokens = do
  (e, r') ← read_token r
  elim e [ end ↦ return tokens | token t ↦ parse_tokens fuel r' (tokens ++ (t ∷ [])) ]

-- Each token takes a byte at least, so one round for each byte and one more are enough.
unfoldable pub parse_delta_stream : Reader (List Token)
parse_delta_stream s = parse_tokens (suc (length s)) new_delta_reader [] s
