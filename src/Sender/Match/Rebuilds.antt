-- ===== src/Sender/Match/Rebuilds.antt =====
-- hashSearch ends, and its stream stands for the data.
use go_rsyncfs.Base.{
  ℕ, zero, suc, ◌+◌, ◌-◌, ◌^◌, ◌≤◌, ◌<◌, ◌≡◌, refl, ap, ◌∙◌, List, [], ◌∷◌, ◌++◌, append_assoc,
  some, Bytes, length, take, drop, All, All-append, arith, false, inl, inr, Bool-cases, min,
  bit_and, ltb, leb, take-then-drop, ◌==◌, ◌||◌,
}
use go_rsyncfs.Io.{ok}
use go_rsyncfs.Delta.{Token, block}
use go_rsyncfs.Delta.RoundTrip.{rebuild, IsToken}
use go_rsyncfs.Sender.Match.Fill.{Describes, Advances, rebuild-fill, fill-tokens, rebuild-rest}
use go_rsyncfs.Sender.Match.{
  BlockSum, Search, Table, send_literal_fill, at_end, build_table, empty_table, fresh_window,
  after_match, flushes, no_match, roll, search_round, search_rounds, hash_search, last_of,
}
use go_rsyncfs.Sender.Match.Table.{get_elem?, AllOf, chains-All, find_match_cases, is_match-strong}

module _ (strong : ℕ → Bytes → Bytes) (s : Bytes) (blen last_len : ℕ) (table : Table)
    (basis : ℕ → Bytes) (pos : 0 < blen) (last_pos : 0 < last_len) (last_fits : last_len < 2 ^ 31)
    (chains : (key : ℕ) → All (AllOf (Describes strong s basis)) (table key)) where
  no_match-Advances :
      (w : Search)
      → w.last_match ≤ w.offset
      → w.offset < length s
      → (ts : List Token) × (w' : Search) × (no_match strong s blen last_len table w
          ≡ some (ts, w'))
        × Advances s basis w w' ts
  unfolding no_match roll
  no_match-Advances w le lt =
      let inside : leb (length s) w.offset ≡ false = ground arith in
      elim (Bool-cases (flushes strong s blen last_len table w)) [
        | inl early ↦
            let back : w.last_match ≤ w.offset - blen = unfold flushes in ground arith in
            (
              send_literal_fill s w.last_match (w.offset - blen),
              record (roll s w) { last_match = w.offset - blen },
              rw (inside, early) refl,
              record {
                moves = omega arith;
                behind = omega arith;
                within = omega arith;
                emits = λ later e. rebuild-fill s basis w.last_match (w.offset - blen) later back e;
                tokens = fill-tokens s basis w.last_match (w.offset - blen);
              },
            )
        | inr stays ↦ (
          [],
          roll s w,
          rw (inside, stays) refl,
          record {
            moves = omega arith;
            behind = omega arith;
            within = omega arith;
            emits = λ later e. e;
            tokens = tt;
          },
        )
      ]

  after_match-Advances :
      (w : Search) (i : ℕ) (b : BlockSum)
      → w.last_match ≤ w.offset
      → w.offset < length s
      → Describes strong s basis i b
      → b.len ≡ min blen (length s - w.offset)
      → strong (length b.sum2) (take (min blen (length s - w.offset)) (drop w.offset s)) ≡ b.sum2
      → (ts : List Token) × (w' : Search) × (after_match strong s blen last_len table w i b
          ≡ some (ts, w'))
        × Advances s basis w w' ts
  unfolding after_match roll fresh_window rebuild
  after_match-Advances w i b le lt (small, same) len sum =
      let l = min blen (length s - w.offset) in
      let window = take l (drop w.offset s) in
      let m = w.offset + b.len in
      let whole : take b.len (drop w.offset s) ≡ window =
        ap (λ (n : ℕ). take n (drop w.offset s)) len in
      let is_block : basis i ≡ window =
        same w.offset (omega arith) (ap (strong (length b.sum2)) whole ∙ sum) ∙ whole in
      let inside : (m == 0 || ltb (length s) m) ≡ false = ground arith in
      let block_then : window ++ drop m s ≡ drop w.offset s =
        ap (λ (n : ℕ). take n (drop w.offset s) ++ drop m s) (omega arith)
        ∙ take-then-drop w.offset m s (omega arith) in
      (
        send_literal_fill s w.last_match w.offset ++ (block i ∷ []),
        roll s (fresh_window s blen (m - 1) m),
        rw inside refl,
        record {
          moves = omega arith;
          behind = omega arith;
          within = omega arith;
          emits = λ later e.
              ap (rebuild basis)
                (append_assoc (send_literal_fill s w.last_match w.offset) (block i ∷ []) later)
              ∙ rebuild-fill s basis w.last_match w.offset (block i ∷ later) le (
                  ap (λ (t : Bytes). basis i ++ t) e
                  ∙ ap (λ (t : Bytes). t ++ drop m s) is_block
                  ∙ block_then);
          tokens =
              All-append IsToken (send_literal_fill s w.last_match w.offset) (block i ∷ [])
                (fill-tokens s basis w.last_match w.offset) (small, tt);
        },
      )

  search_round-Advances :
      (w : Search)
      → w.last_match ≤ w.offset
      → w.offset < length s
      → (ts : List Token) × (w' : Search) × (search_round strong s blen last_len table w
          ≡ some (ts, w'))
        × Advances s basis w w' ts
  unfolding search_round
  search_round-Advances w le lt =
      let key = bit_and (w.s1 + w.s2) 0xffff in
      elim (find_match_cases strong s blen last_len table (Describes strong s basis) w (table key)
        (chains key)) [
          | inl e ↦ rw (search_round, e) (no_match-Advances w le lt)
          | inr (i, b, e, d, matched) ↦
              let (len, sum) = is_match-strong strong s blen last_len table w b matched in
              rw (search_round, e) (after_match-Advances w i b le lt d len sum)
        ]

  -- A round behind which the loop goes on leaves a byte to look at.
  before_end : (x : ℕ) → at_end (length s) last_len x ≡ false → x < length s
  unfolding at_end
  before_end x e = ground arith

  search_rounds-Rebuilds :
      (fuel : ℕ) (w : Search) (rest : Bytes)
      → w.last_match ≤ w.offset
      → w.offset < length s
      → length s < fuel + w.offset
      → (ts : List Token) × (search_rounds strong s blen last_len table fuel w rest ≡ ok ts rest)
        × (rebuild basis ts ≡ drop w.last_match s)
        × All IsToken ts
  unfolding search_rounds
  search_rounds-Rebuilds zero w rest le lt enough = absurd (omega arith)
  search_rounds-Rebuilds (suc fuel) w rest le lt enough =
      let (ts, w', e, a) = search_round-Advances w le lt in
      elim (Bool-cases (at_end (length s) last_len w'.offset)) [
        | inl ends ↦ (
          ts ++ send_literal_fill s w'.last_match (length s),
          rw (search_rounds, e, ends) refl,
          a.emits _ (rebuild-rest s basis w'.last_match (omega (arith, a.behind, a.within))),
          All-append IsToken ts _ a.tokens (fill-tokens s basis w'.last_match (length s)),
        )
        | inr goes_on ↦
            let (later, e', r, all) =
              search_rounds-Rebuilds fuel w' rest a.behind (before_end w'.offset goes_on)
                (omega (arith, a.moves)) in
            (
              ts ++ later,
              rw (search_rounds, e, goes_on, e') refl,
              a.emits later r,
              All-append IsToken ts later a.tokens all,
            )
      ]

in_range :
    (sums : List BlockSum) (i : ℕ) (b : BlockSum) → get_elem? sums i ≡ some b → i < length sums
in_range [] i b e = cc
in_range (c ∷ sums) zero b e = omega arith
in_range (c ∷ sums) (suc i) b e = omega (arith, in_range sums i b e)

-- For data that is not empty and blocks that are not, the last one no longer than an int32 tells,
-- hashSearch ends without a panic, and its tokens stand for the data, over every basis that has a
-- window of the data as its block where that has the length and the strong checksum of the block.
pub hash_search-rebuild :
    (strong : ℕ → Bytes → Bytes) (s : Bytes) (blen : ℕ) (sums : List BlockSum) (last : BlockSum)
    (basis : ℕ → Bytes) (rest : Bytes)
    → 0 < length s
    → 0 < blen
    → last_of sums ≡ some last
    → 0 < last.len
    → last.len < 2 ^ 31
    → length sums ≤ 2 ^ 31
    → ((i : ℕ) (b : BlockSum)
        → get_elem? sums i ≡ some b
        → (o : ℕ) → o + b.len ≤ length s
        → strong (length b.sum2) (take b.len (drop o s)) ≡ b.sum2
        → basis i ≡ take b.len (drop o s))
    → (ts : List Token) × (hash_search strong s blen sums rest ≡ ok ts rest)
      × (rebuild basis ts ≡ s)
      × All IsToken ts
unfolding hash_search fresh_window
hash_search-rebuild strong s blen sums last basis rest some_data pos l last_pos last_fits few
      true_blocks =
    rw (hash_search, l)
      (search_rounds-Rebuilds strong s blen last.len (build_table 0 empty_table sums) basis pos
        last_pos last_fits
        (chains-All (Describes strong s basis) sums
          (λ i b e. (omega (arith, in_range sums i b e), true_blocks i b e)))
        (suc (length s)) (fresh_window s blen 0 0) rest (omega arith) (omega arith) (omega arith))
