-- ===== src/Delta/Steps.antt =====
-- One round of ParseDeltaStream on each kind of token that WriteDeltaStream writes.
use go_rsyncfs.Base.{
  ℕ, suc, ◌+◌, ◌-◌, ◌%◌, ◌^◌, ◌≤◌, ◌<◌, ◌≡◌, refl, List, [], ◌∷◌, ◌++◌, Bytes, length, arith, min,
}
use go_rsyncfs.Io.{Result, ok}
use go_rsyncfs.Io.Laws.{read_full-append}
use go_rsyncfs.Wire.Le.{le_bytes, le_value-le_bytes}
use go_rsyncfs.Wire.Fixed.RoundTrip.{read_full-le_bytes}
use go_rsyncfs.Delta.{
  Token, literal, block, DeltaReader, chunk_size, Event, token, end, read_chunk, read_header,
  read_token, parse_tokens,
}

-- What the loop does with the outcome of ReadToken.
abbrev pub continue : ℕ → List Token → Event × DeltaReader → Bytes → Result (List Token)
continue fuel acc (end, r) rest = ok acc rest
continue fuel acc (token t, r) rest = parse_tokens fuel r (acc ++ (t ∷ [])) rest

pub parse_step :
    (fuel : ℕ) (r : DeltaReader) (acc : List Token) (s rest : Bytes) (e : Event) (r' : DeltaReader)
    → read_token r s ≡ ok (e, r') rest
    → parse_tokens (suc fuel) r acc s ≡ continue fuel acc (e, r') rest
unfolding parse_tokens
parse_step fuel r acc s rest end r' h = rw (h, parse_tokens)
parse_step fuel r acc s rest (token t) r' h = rw (h, parse_tokens)

pub read_token-header :
    (r : DeltaReader) (v : ℕ) (rest : Bytes)
    → r.residue ≡ 0
    → v < 2 ^ 32
    → read_token r (le_bytes 4 v ++ rest) ≡ read_header r v rest
unfolding read_token
read_token-header r v rest idle h =
    ground (arith, read_full-le_bytes 4 v rest, le_value-le_bytes 4 v)

-- The state after a chunk that is a whole literal.
abbrev pub after_chunk : ℕ → DeltaReader
after_chunk n = record {
  residue = n - min chunk_size n;
  buf_len = n;
  buf_off = 0 + min chunk_size n;
}

pub read_header-literal :
    (r : DeltaReader) (n : ℕ) (s rest : Bytes)
    → length s ≡ n
    → 0 < n
    → n ≤ chunk_size
    → read_header r n (s ++ rest) ≡ ok (token (literal s), after_chunk n) rest
unfolding read_header read_chunk
read_header-literal r n s rest len pos small =
    ground (arith, read_full-append (min chunk_size n) s rest)

pub read_header-match :
    (r : DeltaReader) (index : ℕ) (rest : Bytes)
    → index < 2 ^ 31
    → read_header r ((2 ^ 32 + (2 ^ 32 - 1) - index) % 2 ^ 32) rest
      ≡ ok (token (block index), r) rest
unfolding read_header
read_header-match r index rest h = ground arith

pub read_header-end : (r : DeltaReader) (rest : Bytes) → read_header r 0 rest ≡ ok (end, r) rest
unfolding read_header
read_header-end r rest = refl
