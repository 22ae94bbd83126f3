-- ===== src/Delta/RoundTrip.antt =====
-- ParseDeltaStream on what WriteDeltaStream wrote: the literals cut into chunks, the same file.
use go_rsyncfs.Base.{
  ℕ, zero, suc, ◌+◌, ◌-◌, ◌%◌, ◌^◌, ◌≤◌, ◌<◌, ◌≡◌, refl, sym, ap, ◌∙◌, List, [], ◌∷◌, ◌++◌,
  append-nil, append_assoc, Bytes, length, arith, length-append, length-take, length-drop, take,
  drop, take-append-drop, min, map, All,
}
use go_rsyncfs.Io.{ok}
use go_rsyncfs.Wire.Le.{le_bytes, length-le_bytes}
use go_rsyncfs.Delta.{
  Token, literal, block, DeltaReader, new_delta_reader, chunk_size, token, end, read_header,
  parse_tokens, parse_delta_stream, write_chunks, write_literal, write_match, write_end,
  write_token, write_delta_stream,
}
use go_rsyncfs.Delta.Steps.{
  parse_step, read_token-header, read_header-literal, read_header-match, read_header-end,
  after_chunk,
}

-- The pieces that WriteLiteral cuts its data into.
unfoldable pub chunks : ℕ → ℕ → Bytes → List Bytes
chunks size fuel [] = []
chunks size zero (b ∷ s) = []
chunks size (suc fuel) (b ∷ s) =
    let n = min size (length (b ∷ s)) in take n (b ∷ s) ∷ chunks size fuel (drop n (b ∷ s))

-- The tokens as they are read back.
unfoldable pub received : List Token → List Token
received [] = []
received (literal s ∷ ts) = map literal (chunks chunk_size (length s) s) ++ received ts
received (block index ∷ ts) = block index ∷ received ts

-- The file that a delta stands for, over the blocks of a basis file.
unfoldable pub rebuild : (ℕ → Bytes) → List Token → Bytes
rebuild basis [] = []
rebuild basis (literal s ∷ ts) = s ++ rebuild basis ts
rebuild basis (block index ∷ ts) = basis index ++ rebuild basis ts

-- The block index of a match token is an int32 that is not negative.
abbrev pub IsToken : Token → Type 0
IsToken (literal s) = Unit
IsToken (block index) = index < 2 ^ 31

module _ (rest : Bytes) where
  -- From here on the parse adds `more` to its tokens, whatever came before.
  Yields : Bytes → List Token → Type 0
  Yields tail more =
      (fuel : ℕ) (r : DeltaReader) (acc : List Token)
      → r.residue ≡ 0
      → length more < fuel
      → parse_tokens fuel r acc tail ≡ ok (acc ++ more) rest

  Yields-token :
      (v : ℕ) (t : Token) (body tail : Bytes) (more : List Token)
      → v < 2 ^ 32
      → ((r : DeltaReader)
          → r.residue ≡ 0
          → (r' : DeltaReader) × (r'.residue ≡ 0)
            × (read_header r v (body ++ tail) ≡ ok (token t, r') tail))
      → Yields tail more
      → Yields (le_bytes 4 v ++ (body ++ tail)) (t ∷ more)
  unfolding Yields
  Yields-token v t body tail more h header y zero r acc idle big = absurd (omega arith)
  Yields-token v t body tail more h header y (suc fuel) r acc idle big =
      let (r', idle', e) = header r idle in
      parse_step fuel r acc (le_bytes 4 v ++ (body ++ tail)) tail (token t) r'
        (read_token-header r v (body ++ tail) idle h ∙ e)
      ∙ y fuel r' (acc ++ (t ∷ [])) idle' (omega arith)
      ∙ ap (λ (a : List Token). ok a rest) (append_assoc acc (t ∷ []) more)

  Yields-chunks :
      (cuts : ℕ) (s tail : Bytes) (more : List Token)
      → Yields tail more
      → Yields
          (write_chunks chunk_size cuts s ++ tail)
          (map literal (chunks chunk_size cuts s) ++ more)
  unfolding write_chunks chunks
  Yields-chunks cuts [] tail more y = y
  Yields-chunks zero (b ∷ s) tail more y = y
  Yields-chunks (suc cuts) (b ∷ s) tail more y =
      let n = min chunk_size (length (b ∷ s)) in
      let piece = take n (b ∷ s) in
      let later = write_chunks chunk_size cuts (drop n (b ∷ s)) in
      let len : length piece ≡ n = omega (arith, length-take n (b ∷ s)) in
      rw (append_assoc (le_bytes 4 n) (piece ++ later) tail, append_assoc piece later tail)
        (Yields-token n (literal piece) piece (later ++ tail) _ (omega arith)
          (λ r idle. (
            after_chunk n,
            omega arith,
            read_header-literal r n piece (later ++ tail) len (omega arith) (omega arith),
          ))
          (Yields-chunks cuts (drop n (b ∷ s)) tail more y))

  Yields-match :
      (index : ℕ) (tail : Bytes) (more : List Token)
      → index < 2 ^ 31
      → Yields tail more
      → Yields (write_match index ++ tail) (block index ∷ more)
  unfolding write_match
  Yields-match index tail more h =
      Yields-token _ (block index) [] tail more (omega arith)
        (λ r idle. (r, idle, read_header-match r index tail h))

  Yields-end : Yields (write_end ++ rest) []
  unfolding Yields write_end
  Yields-end zero r acc idle big = absurd (omega arith)
  Yields-end (suc fuel) r acc idle big =
      parse_step fuel r acc (le_bytes 4 0 ++ rest) rest end r
        (read_token-header r 0 rest idle (omega arith) ∙ read_header-end r rest)
      ∙ rw append-nil

  Yields-stream :
      (ts : List Token) → All IsToken ts → Yields (write_delta_stream ts ++ rest) (received ts)
  unfolding write_delta_stream received write_token
  Yields-stream [] h = Yields-end
  Yields-stream (literal s ∷ ts) h =
      rw (append_assoc (write_literal s) (write_delta_stream ts) rest) (
        unfold write_literal in
        Yields-chunks (length s) s (write_delta_stream ts ++ rest) (received ts)
          (Yields-stream ts h.1))
  Yields-stream (block index ∷ ts) h =
      rw (append_assoc (write_match index) (write_delta_stream ts) rest)
        (Yields-match index _ (received ts) h.0 (Yields-stream ts h.1))

length-map_literal : (l : List Bytes) → length (map literal l) ≡ length l
length-map_literal [] = refl
length-map_literal (s ∷ l) = ap suc (length-map_literal l)

length-chunks-le :
    (size cuts : ℕ) (s : Bytes) → length (chunks size cuts s) ≤ length (write_chunks size cuts s)
unfolding chunks write_chunks
length-chunks-le size cuts [] = omega arith
length-chunks-le size zero (b ∷ s) = omega arith
length-chunks-le size (suc cuts) (b ∷ s) =
    let n = min size (length (b ∷ s)) in
    let later = write_chunks size cuts (drop n (b ∷ s)) in
    omega (
      arith,
      length-append {0} (le_bytes 4 n) (take n (b ∷ s) ++ later),
      length-append {0} (take n (b ∷ s)) later,
      length-le_bytes 4 n,
      length-chunks-le size cuts (drop n (b ∷ s)),
    )

length-received-le : (ts : List Token) → length (received ts) ≤ length (write_delta_stream ts)
unfolding received write_delta_stream write_token write_literal write_match
length-received-le [] = omega arith
length-received-le (literal s ∷ ts) = omega (
  arith,
  length-append {0} (map literal (chunks chunk_size (length s) s)) (received ts),
  length-append {0} (write_chunks chunk_size (length s) s) (write_delta_stream ts),
  length-map_literal (chunks chunk_size (length s) s),
  length-chunks-le chunk_size (length s) s,
  length-received-le ts,
)
length-received-le (block index ∷ ts) = omega (
  arith,
  length-append {0} (le_bytes 4 ((2 ^ 32 + (2 ^ 32 - 1) - index) % 2 ^ 32)) (write_delta_stream ts),
  length-le_bytes 4 ((2 ^ 32 + (2 ^ 32 - 1) - index) % 2 ^ 32),
  length-received-le ts,
)

rebuild-chunks :
    (basis : ℕ → Bytes) (size cuts : ℕ) (s : Bytes) (ts : List Token)
    → 0 < size
    → length s ≤ cuts
    → rebuild basis (map literal (chunks size cuts s) ++ ts) ≡ s ++ rebuild basis ts
unfolding chunks rebuild
rebuild-chunks basis size cuts [] ts pos h = refl
rebuild-chunks basis size zero (b ∷ s) ts pos h = absurd (omega arith)
rebuild-chunks basis size (suc cuts) (b ∷ s) ts pos h =
    let n = min size (length (b ∷ s)) in
    ap (λ (t : Bytes). take n (b ∷ s) ++ t)
      (rebuild-chunks basis size cuts (drop n (b ∷ s)) ts pos
        (omega (arith, length-drop n (b ∷ s))))
    ∙ sym (append_assoc (take n (b ∷ s)) (drop n (b ∷ s)) (rebuild basis ts))
    ∙ ap (λ (t : Bytes). t ++ rebuild basis ts) (take-append-drop n (b ∷ s))

rebuild-received :
    (basis : ℕ → Bytes) (ts : List Token) → rebuild basis (received ts) ≡ rebuild basis ts
unfolding received rebuild
rebuild-received basis [] = refl
rebuild-received basis (literal s ∷ ts) =
    rebuild-chunks basis chunk_size (length s) s (received ts) (omega arith) (omega arith)
    ∙ ap (λ (t : Bytes). s ++ t) (rebuild-received basis ts)
rebuild-received basis (block index ∷ ts) =
    ap (λ (t : Bytes). basis index ++ t) (rebuild-received basis ts)

-- ParseDeltaStream reads what WriteDeltaStream wrote as the same tokens, each literal cut
-- as WriteLiteral cuts it, and leaves what follows; over every basis the file is the same. The
-- block indices are int32s that are not negative.
pub parse_delta_stream-write_delta_stream :
    (ts : List Token) (rest : Bytes) (basis : ℕ → Bytes)
    → All IsToken ts
    → (parse_delta_stream (write_delta_stream ts ++ rest) ≡ ok (received ts) rest)
      × (rebuild basis (received ts) ≡ rebuild basis ts)
unfolding parse_delta_stream Yields
parse_delta_stream-write_delta_stream ts rest basis h = (
  Yields-stream rest ts h _ new_delta_reader [] (omega arith)
      (omega (arith, length-received-le ts, length-append {0} (write_delta_stream ts) rest)),
  rebuild-received basis ts,
)
