-- ===== src/Delta/Total.antt =====
-- ParseDeltaStream ends on every input, and its buffer is never sliced out of bounds.
use go_rsyncfs.Base.{
  ℕ, zero, suc, ◌+◌, ◌≤◌, ◌<◌, ◌≡◌, List, [], ◌∷◌, ◌++◌, Bytes, length, arith, inl, inr, ◌⊎◌,
  Bool-cases, ltb→lt, false, ltb, ◌==◌, min,
}
use go_rsyncfs.Io.{Error, Result, ok, err, return, bind, eof, unexpected_eof}
use go_rsyncfs.Io.Laws.{short_read_cases, read_full_takes, read_full_cases}
use go_rsyncfs.Wire.Le.{le_value}
use go_rsyncfs.Wire.Fixed.{is_neg32}
use go_rsyncfs.Delta.{
  Token, DeltaReader, new_delta_reader, chunk_size, Event, token, end, read_chunk, read_header,
  read_token, parse_tokens, parse_delta_stream,
}

-- The unread part of a literal is the unread part of the buffer.
abbrev pub Consistent : DeltaReader → Type 0
Consistent r = r.buf_off + r.residue ≤ r.buf_len

-- The outcomes of reading a token: a failed read of the stream; the end; or a token, which took
-- bytes and left the state consistent.
data Outcome (s : Bytes) : Result (Event × DeltaReader) → Type 0 where
  failed : {e : Error} {t : Bytes} → (e ≡ eof) ⊎ (e ≡ unexpected_eof) → Outcome s (err e t)
  ended : {r : DeltaReader} {t : Bytes} → Outcome s (ok (end, r) t)
  read :
      {k : Token} {r : DeltaReader} {t : Bytes}
      → Consistent r
      → length t < length s
      → Outcome s (ok (token k, r) t)

read_chunk-Outcome :
    (r : DeltaReader) (s : Bytes) → Consistent r → 0 < r.residue → Outcome s (read_chunk r s)
unfolding read_chunk
read_chunk-Outcome r s c pos = rw in_bounds (elim (read_full_cases (min chunk_size r.residue) s) [
  | inl (p, t, e) ↦ rw e (read (omega arith) (omega (arith, read_full_takes _ s p t e)))
  | inr e ↦ rw e (failed (short_read_cases s))
])
  where
    in_bounds : ltb r.buf_len (r.buf_off + min chunk_size r.residue) ≡ false
    in_bounds = ground arith

Outcome-weaken :
    {s t : Bytes} {o : Result (Event × DeltaReader)}
    → length t ≤ length s
    → Outcome t o
    → Outcome s o
Outcome-weaken h (failed e) = failed e
Outcome-weaken h ended = ended
Outcome-weaken h (read c l) = read c (omega arith)

read_header-Outcome :
    (r : DeltaReader) (val : ℕ) (s t : Bytes)
    → Consistent r
    → length t < length s
    → Outcome s (read_header r val t)
unfolding read_header
read_header-Outcome r val s t c h = elim (Bool-cases (val == 0)) [
  | inl done ↦ rw done ended
  | inr other ↦ elim (Bool-cases (is_neg32 val)) [
    | inl negative ↦ rw (other, negative) (read c h)
    | inr positive ↦
        rw (other, positive)
          (Outcome-weaken (omega arith) (
            read_chunk-Outcome (record { residue = val; buf_len = val; buf_off = 0 }) t
              (omega arith) (ground arith)))
  ]
]

read_token-Outcome : (r : DeltaReader) (s : Bytes) → Consistent r → Outcome s (read_token r s)
unfolding read_token
read_token-Outcome r s c = elim (Bool-cases (ltb 0 r.residue)) [
  | inl more ↦ rw more (read_chunk-Outcome r s c (ltb→lt _ _ more))
  | inr fresh ↦ rw fresh (elim (read_full_cases 4 s) [
    | inl (b, t, e) ↦
        rw e (read_header-Outcome r (le_value b) s t c (omega (arith, read_full_takes 4 s b t e)))
    | inr e ↦ rw e (failed (short_read_cases s))
  ])
]

-- How a parse may end: with the tokens, or because the stream ended inside it.
pub data Ends : Result (List Token) → Type 0 where
  parsed : {ts : List Token} {t : Bytes} → Ends (ok ts t)
  cut_off : {e : Error} {t : Bytes} → (e ≡ eof) ⊎ (e ≡ unexpected_eof) → Ends (err e t)

parse_tokens-Ends :
    (fuel : ℕ) (r : DeltaReader) (acc : List Token) (s : Bytes)
    → Consistent r
    → length s < fuel
    → Ends (parse_tokens fuel r acc s)
unfolding parse_tokens
parse_tokens-Ends zero r acc s c h = absurd (omega arith)
parse_tokens-Ends (suc fuel) r acc s c h =
    after (λ r' k t. parse_tokens-Ends fuel r' (acc ++ (k ∷ [])) t) (read_token r s)
      (read_token-Outcome r s c)
  where
    after :
        ((r' : DeltaReader) (k : Token) (t : Bytes)
          → Consistent r'
          → length t < fuel
          → Ends (parse_tokens fuel r' (acc ++ (k ∷ [])) t))
        → (o : Result (Event × DeltaReader)) → Outcome s o
        → Ends (
            bind o (λ p. elim p.0 [
              | end ↦ return acc
              | token k ↦ parse_tokens fuel p.1 (acc ++ (k ∷ []))
            ]))
    after ih _ (failed e) = cut_off e
    after ih _ ended = parsed
    after ih _ (read {k} {r = r'} {t} c' l) = ih r' k t c' (omega arith)

-- On every input ParseDeltaStream returns its tokens, or io.EOF or io.ErrUnexpectedEOF: it neither
-- panics nor loops.
pub parse_delta_stream-Ends : (s : Bytes) → Ends (parse_delta_stream s)
unfolding parse_delta_stream
parse_delta_stream-Ends s =
    parse_tokens-Ends (suc (length s)) new_delta_reader [] s (omega arith) (omega arith)
