-- ===== src/Client/Open/Delta.antt =====
-- The loop of openFile over the tokens, against ParseDeltaStream.
use go_rsyncfs.Base.{
  ℕ, zero, suc, ◌≡◌, refl, sym, ap, ◌∙◌, List, [], ◌∷◌, ◌++◌, append_assoc, append-nil, Bytes,
  length,
}
use go_rsyncfs.Io.{Result, ok, err}
use go_rsyncfs.Delta.{
  Token, literal, block, DeltaReader, new_delta_reader, Event, token, end, read_token, parse_tokens,
  parse_delta_stream,
}
use go_rsyncfs.Delta.RoundTrip.{rebuild}
use go_rsyncfs.Delta.Steps.{parse_step}
use go_rsyncfs.Client.Open.{read_delta, read_file}

-- The literal data of tokens: what they stand for over a basis of empty blocks.
abbrev pub literals : List Token → Bytes
literals ts = rebuild (λ (i : ℕ). []) ts

literals-append : (ts us : List Token) → literals (ts ++ us) ≡ literals ts ++ literals us
unfolding rebuild
literals-append [] us = refl
literals-append (literal s ∷ ts) us =
    ap (λ (t : Bytes). s ++ t) (literals-append ts us)
    ∙ sym (append_assoc s (literals ts) (literals us))
literals-append (block i ∷ ts) us = literals-append ts us

literals_of : Result (List Token) → Result Bytes
literals_of (ok ts t) = ok (literals ts) t
literals_of (err e t) = err e t

read_delta-parse_tokens :
    (fuel : ℕ) (r : DeltaReader) (acc ts : List Token) (s rest : Bytes)
    → parse_tokens fuel r acc s ≡ ok ts rest
    → read_delta fuel r (literals acc) s ≡ ok (literals ts) rest
unfolding parse_tokens read_delta rebuild literals_of
read_delta-parse_tokens zero r acc ts s rest e = cc
read_delta-parse_tokens (suc fuel) r acc ts s rest e =
    after (λ r' acc'. read_delta-parse_tokens fuel r' acc' ts) (read_token r s) refl
  where
    after :
        ((r' : DeltaReader) (acc' : List Token) (t v : Bytes)
          → parse_tokens fuel r' acc' t ≡ ok ts v
          → read_delta fuel r' (literals acc') t ≡ ok (literals ts) v)
        → (o : Result (Event × DeltaReader)) → read_token r s ≡ o
        → read_delta (suc fuel) r (literals acc) s ≡ ok (literals ts) rest
    after ih (err f t) h = let failed : err f t ≡ ok ts rest = rw (parse_tokens, h) at (e) in cc
    after ih (ok (end, r') t) h =
        let done : ok acc t ≡ ok ts rest = sym (parse_step fuel r acc s t end r' h) ∙ e in
        rw (read_delta, h) (ap (literals_of) done)
    after ih (ok (token (literal u), r') t) h =
        rw (read_delta, h)
          (ap (λ (v : Bytes). read_delta fuel r' v t)
              (sym (
                literals-append acc (literal u ∷ [])
                ∙ ap (λ (v : Bytes). literals acc ++ v) (append-nil u)))
            ∙ ih r' (acc ++ (literal u ∷ [])) t rest
                (sym (parse_step fuel r acc s t (token (literal u)) r' h) ∙ e))
    after ih (ok (token (block j), r') t) h =
        rw (read_delta, h)
          (ap (λ (v : Bytes). read_delta fuel r' v t)
              (sym (literals-append acc (block j ∷ []) ∙ append-nil (literals acc)))
            ∙ ih r' (acc ++ (block j ∷ [])) t rest
                (sym (parse_step fuel r acc s t (token (block j)) r' h) ∙ e))

-- openFile reads the file that the tokens of the stream stand for, over a basis of empty blocks.
pub read_file-parse_delta_stream :
    (ts : List Token) (s rest : Bytes)
    → parse_delta_stream s ≡ ok ts rest
    → read_file s ≡ ok (literals ts) rest
unfolding parse_delta_stream read_file rebuild
read_file-parse_delta_stream ts s rest e =
    read_delta-parse_tokens (suc (length s)) new_delta_reader [] ts s rest e
