-- ===== src/Sender/Match.antt =====
-- The block matcher of server-send.go: rollingChecksum, sendLiteralFill and hashSearch, over the
-- checksums that the client sent of the blocks of its file.
pub mod Table
pub mod Fill
pub mod Rebuilds
pub mod Rolling
pub mod Panics
pub mod Misses
mod Examples
use go_rsyncfs.Base.{
  ℕ, zero, suc, ◌+◌, ◌-◌, ◌*◌, ◌/◌, ◌%◌, ◌^◌, min, bit_and, bit_or, Bool, true, false, not, ◌&&◌,
  ◌||◌, List, [], ◌∷◌, ◌++◌, Option, none, some, Bytes, length, take, drop, get_or, ltb, leb, ◌==◌,
  if◌then◌else◌,
}
use go_rsyncfs.Io.{Reader, ◌>>=◌, return, fail, panic, out_of_fuel}
use go_rsyncfs.Wire.Fixed.{is_neg32}
use go_rsyncfs.Checksum.{checksum1_loop}
use go_rsyncfs.Equal.{bytes_equal}
use go_rsyncfs.Delta.{Token, literal, block, chunk_size}

pub record BlockSum : Type 0 where
  pub sum1 : ℕ
  pub sum2 : Bytes
  pub len : ℕ

-- The loops are those of Checksum1.
unfoldable pub rolling_checksum : Bytes → ℕ × ℕ
rolling_checksum s =
    let sums = checksum1_loop 0 0 s in (bit_and sums.0 0xffff, bit_and sums.1 0xffff)

-- The calls of the DeltaWriter are the tokens that they are made with.
unfoldable pub send_literal_fill : Bytes → ℕ → ℕ → List Token
send_literal_fill s a b = if leb b a then [] else literal (take (b - a) (drop a s)) ∷ []

-- SUM2HASH2
unfoldable pub hash_of : BlockSum → ℕ
hash_of s = (bit_and s.sum1 0xffff + s.sum1 / 2 ^ 16) % 2 ^ 16

-- The table of chains: for each hash its blocks with their indices, the last one first.
abbrev pub Table : Type 0
Table = ℕ → List (ℕ × BlockSum)

abbrev pub empty_table : Table
empty_table key = []

unfoldable pub build_table : ℕ → Table → List BlockSum → Table
build_table i table [] = table
build_table i table (s ∷ sums) =
    build_table (suc i) (λ key. if key == hash_of s then (i, s) ∷ table key else table key) sums

-- The variables of the loop.
pub record Search : Type 0 where
  pub offset : ℕ
  pub last_match : ℕ
  pub k : ℕ
  pub s1 : ℕ
  pub s2 : ℕ

-- The window moved by one byte, and `offset++`. The sums are uint32.
unfoldable pub rolled_sums : Bytes → Search → ℕ × ℕ × ℕ
rolled_sums s w =
    let b0 = get_or s w.offset 0 in
    let s1 = (w.s1 + (2 ^ 32 - b0)) % 2 ^ 32 in
    let s2 = (w.s2 + (2 ^ 32 - w.k * b0 % 2 ^ 32)) % 2 ^ 32 in
    if ltb (w.offset + w.k) (length s)
    then (let s1' = (s1 + get_or s (w.offset + w.k) 0) % 2 ^ 32 in (s1', (s2 + s1') % 2 ^ 32, w.k))
    else (s1, s2, w.k - 1)

unfoldable pub roll : Bytes → Search → Search
roll s w =
    let sums = rolled_sums s w in
    record {
      offset = w.offset + 1;
      last_match = w.last_match;
      k = sums.2;
      s1 = sums.0;
      s2 = sums.1;
    }

unfoldable pub last_of : List BlockSum → Option BlockSum
last_of [] = none
last_of (s ∷ []) = some s
last_of (s ∷ t ∷ sums) = last_of (t ∷ sums)

-- `x >= end`, where end is the length of the data and one less the length of the last block, an
-- int32 of either sign.
unfoldable pub at_end : ℕ → ℕ → ℕ → Bool
at_end size last_len x =
    if is_neg32 last_len
    then leb (size + 1 + (2 ^ 32 - last_len)) x
    else leb (size + 1) (x + last_len)

-- The window at an offset, from its start.
unfoldable pub fresh_window : Bytes → ℕ → ℕ → ℕ → Search
fresh_window s blen offset last_match =
    let k = min blen (length s - offset) in
    let sums = rolling_checksum (take k (drop offset s)) in
    record { offset = offset; last_match = last_match; k = k; s1 = sums.0; s2 = sums.1 }

-- `strong n w` is Checksum2 of `w` with the digest and the seed of the session, cut to `n` bytes.
module _ (strong : ℕ → Bytes → Bytes) (s : Bytes) (blen last_len : ℕ) (table : Table) where
  unfoldable pub is_match : Search → BlockSum → Bool
  is_match w b =
      let l = min blen (length s - w.offset) in
      b.sum1 == bit_or w.s1 w.s2
      && (b.len == l && bytes_equal (strong (length b.sum2) (take l (drop w.offset s))) b.sum2)

  -- The loop over a chain.
  unfoldable pub find_match : Search → List (ℕ × BlockSum) → Option (ℕ × BlockSum)
  find_match w [] = none
  find_match w ((i, b) ∷ chain) = elim (is_match w b) [
    | true ↦ some (i, b)
    | false ↦ find_match w chain
  ]

  -- A match: the fill, the token and the window behind the block. None is a panic of `data[offset]`.
  unfoldable pub after_match : Search → ℕ → BlockSum → Option (List Token × Search)
  after_match w i b =
      let m = w.offset + b.len in
      if m == 0 || ltb (length s) m
      then none
      else some (
        send_literal_fill s w.last_match w.offset ++ (block i ∷ []),
        roll s (fresh_window s blen (m - 1) m),
      )

  -- The early flush.
  unfoldable pub flushes : Search → Bool
  flushes w =
      leb (blen + chunk_size) (w.offset - w.last_match)
      && not (at_end (length s) last_len (w.offset + chunk_size))

  -- No match: the window moves, and what is far behind it is sent. None is a panic of `data[offset]`.
  unfoldable pub no_match : Search → Option (List Token × Search)
  no_match w =
      if leb (length s) w.offset
      then none
      else if flushes w
      then some (
        send_literal_fill s w.last_match (w.offset - blen),
        record (roll s w) { last_match = w.offset - blen },
      )
      else some ([], roll s w)

  -- A round of the loop.
  unfoldable pub search_round : Search → Option (List Token × Search)
  search_round w = elim (find_match w (table (bit_and (w.s1 + w.s2) 0xffff))) [
    | some (i, b) ↦ after_match w i b
    | none ↦ no_match w
  ]

  unfoldable pub search_rounds : ℕ → Search → Reader (List Token)
  search_rounds zero w = fail out_of_fuel
  search_rounds (suc fuel) w = elim (search_round w) [
    | none ↦ fail panic
    | some (ts, w') ↦ elim (at_end (length s) last_len w'.offset) [
      | true ↦ return (ts ++ send_literal_fill s w'.last_match (length s))
      | false ↦ search_rounds fuel w' >>= (λ later. return (ts ++ later))
    ]
  ]

-- Each round takes a byte at least.
unfoldable pub hash_search : (ℕ → Bytes → Bytes) → Bytes → ℕ → List BlockSum → Reader (List Token)
hash_search strong s blen sums = elim (last_of sums) [
  | none ↦ fail panic
  | some last ↦
      search_rounds strong s blen last.len (build_table 0 empty_table sums) (suc (length s))
        (fresh_window s blen 0 0)
]
