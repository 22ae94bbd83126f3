-- ===== src/Delta/Examples.antt =====
-- Concrete delta streams, and the theorems at them.
use go_rsyncfs.Base.{ℕ, ◌≡◌, refl, List, [], ◌∷◌, ◌++◌, Bytes, arith}
use go_rsyncfs.Io.{ok, err, eof, read_full}
use go_rsyncfs.Wire.Le.{le_bytes, le_value}
use go_rsyncfs.Delta.{
  Token, literal, block, write_match, write_delta_stream, read_chunk, read_header, read_token,
  parse_tokens, parse_delta_stream,
}
use go_rsyncfs.Delta.Total.{Ends, parse_delta_stream-Ends}
use go_rsyncfs.Delta.RoundTrip.{chunks, received, rebuild, parse_delta_stream-write_delta_stream}

abbrev stream : List Token
stream = literal (1 ∷ 2 ∷ 3 ∷ []) ∷ block 4 ∷ block 0 ∷ literal (5 ∷ []) ∷ []

abbrev basis_of : ℕ → Bytes
basis_of index = index ∷ index ∷ []

-- Five bytes in chunks of two.
cut_short : chunks 2 5 (1 ∷ 2 ∷ 3 ∷ 4 ∷ 5 ∷ []) ≡ (1 ∷ 2 ∷ []) ∷ (3 ∷ 4 ∷ []) ∷ (5 ∷ []) ∷ []
unfolding chunks
cut_short = refl

match_bytes : write_match 4 ≡ 0xfb ∷ 0xff ∷ 0xff ∷ 0xff ∷ []
unfolding write_match le_bytes
match_bytes = refl

-- A stream without its end.
stream_cut : parse_delta_stream (2 ∷ 0 ∷ 0 ∷ 0 ∷ 8 ∷ 9 ∷ []) ≡ err eof []
unfolding parse_delta_stream parse_tokens read_token read_header read_chunk read_full le_value
stream_cut = refl

parse_delta_stream-write_delta_stream_example :
    (parse_delta_stream (write_delta_stream stream ++ (7 ∷ [])) ≡ ok (received stream) (7 ∷ []))
    × (rebuild basis_of (received stream) ≡ rebuild basis_of stream)
parse_delta_stream-write_delta_stream_example =
    parse_delta_stream-write_delta_stream stream (7 ∷ []) basis_of
      (tt, (omega arith, (omega arith, (tt, tt))))

parse_delta_stream-Ends_example : Ends (parse_delta_stream (2 ∷ 0 ∷ 0 ∷ 0 ∷ 8 ∷ 9 ∷ []))
parse_delta_stream-Ends_example = parse_delta_stream-Ends (2 ∷ 0 ∷ 0 ∷ 0 ∷ 8 ∷ 9 ∷ [])
