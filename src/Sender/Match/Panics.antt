-- ===== src/Sender/Match/Panics.antt =====
-- hashSearch with a last block of negative length: ReadSumHead does not test the remainder.
use go_rsyncfs.Base.{
  ℕ, zero, suc, ◌+◌, ◌^◌, ◌≤◌, ◌<◌, ◌≡◌, refl, List, Option, none, some, Bytes, length, arith,
  false, inl, inr, Bool-cases, ltb, leb, ◌==◌, ◌||◌, All, bit_and,
}
use go_rsyncfs.Io.{err, panic}
use go_rsyncfs.Delta.{Token}
use go_rsyncfs.Sender.Match.{
  BlockSum, Search, Table, at_end, build_table, empty_table, fresh_window, after_match, flushes,
  no_match, roll, search_round, search_rounds, hash_search, last_of,
}
use go_rsyncfs.Sender.Match.Table.{get_elem?, AllOf, chains-All, find_match_cases}

module _ (strong : ℕ → Bytes → Bytes) (s : Bytes) (blen last_len : ℕ) (table : Table)
    (negative : 2 ^ 31 ≤ last_len)
    (chains : (key : ℕ) → All (AllOf (λ (i : ℕ) (b : BlockSum). 0 < b.len)) (table key)) where
  -- A round panics, or moves within the data.
  Moves : Search → Option (List Token × Search) → Type 0
  Moves w none = Unit
  Moves w (some (ts, w')) = (w.offset < w'.offset) × (w'.offset ≤ length s)

  no_match-Moves : (w : Search) → Moves w (no_match strong s blen last_len table w)
  unfolding no_match roll Moves
  no_match-Moves w = elim (Bool-cases (leb (length s) w.offset)) [
    | inl outside ↦ rw outside tt
    | inr inside ↦ elim (Bool-cases (flushes strong s blen last_len table w)) [
      | inl early ↦ rw (inside, early) (omega arith, ground arith)
      | inr stays ↦ rw (inside, stays) (omega arith, ground arith)
    ]
  ]

  after_match-Moves :
      (w : Search) (i : ℕ) (b : BlockSum)
      → 0 < b.len
      → Moves w (after_match strong s blen last_len table w i b)
  unfolding after_match roll fresh_window Moves
  after_match-Moves w i b pos =
      elim (Bool-cases (w.offset + b.len == 0 || ltb (length s) (w.offset + b.len))) [
        | inl outside ↦ rw outside tt
        | inr inside ↦ rw inside (omega arith, ground arith)
      ]

  search_round-Moves : (w : Search) → Moves w (search_round strong s blen last_len table w)
  unfolding search_round Moves
  search_round-Moves w =
      let key = bit_and (w.s1 + w.s2) 0xffff in
      elim (find_match_cases strong s blen last_len table (λ (i : ℕ) (b : BlockSum). 0 < b.len) w
        (table key) (chains key)) [
          | inl e ↦ rw (search_round, e) (no_match-Moves w)
          | inr (i, b, e, pos, matched) ↦ rw (search_round, e) (after_match-Moves w i b pos)
        ]

  never_ends : (x : ℕ) → x ≤ length s → at_end (length s) last_len x ≡ false
  unfolding at_end
  never_ends x le = ground arith

  search_rounds-panics :
      (fuel : ℕ) (w : Search) (rest : Bytes)
      → w.offset ≤ length s
      → length s < fuel + w.offset
      → search_rounds strong s blen last_len table fuel w rest ≡ err panic rest
  unfolding search_rounds Moves
  search_rounds-panics zero w rest le enough = absurd (omega arith)
  search_rounds-panics (suc fuel) w rest le enough =
      after (λ w'. search_rounds-panics fuel w' rest) (search_round strong s blen last_len table w)
        refl (search_round-Moves w)
    where
      after :
          ((w' : Search)
            → w'.offset ≤ length s
            → length s < fuel + w'.offset
            → search_rounds strong s blen last_len table fuel w' rest ≡ err panic rest)
          → (o : Option (List Token × Search)) → search_round strong s blen last_len table w ≡ o
          → Moves w o
          → search_rounds strong s blen last_len table (suc fuel) w rest ≡ err panic rest
      after ih none e m = rw (search_rounds, e) refl
      after ih (some (ts, w')) e (moves, within) =
          rw (search_rounds, e, never_ends w'.offset within, ih w' within (omega arith)) refl

-- A last block of negative length makes hashSearch run over the end of the data and panic, on all
-- data and whatever the blocks before it, none of them empty.
pub hash_search-panics :
    (strong : ℕ → Bytes → Bytes) (s : Bytes) (blen : ℕ) (sums : List BlockSum) (last : BlockSum)
    (rest : Bytes)
    → last_of sums ≡ some last
    → 2 ^ 31 ≤ last.len
    → ((i : ℕ) (b : BlockSum) → get_elem? sums i ≡ some b → 0 < b.len)
    → hash_search strong s blen sums rest ≡ err panic rest
unfolding hash_search fresh_window
hash_search-panics strong s blen sums last rest l negative lengths =
    rw (hash_search, l)
      (search_rounds-panics strong s blen last.len (build_table 0 empty_table sums) negative
        (chains-All (λ (i : ℕ) (b : BlockSum). 0 < b.len) sums lengths) (suc (length s))
        (fresh_window s blen 0 0) rest (omega arith) (omega arith))
