-- ===== src/Sender/Match/Misses.antt =====
-- What hashSearch does not find: it compares a block's sum with `s1 | s2`, while the sum has its
-- second half in the high 16 bits.
use go_rsyncfs.Base.{
  ℕ, zero, suc, ◌+◌, ◌-◌, ◌/◌, ◌%◌, ◌^◌, ◌≤◌, ◌<◌, ◌≡◌, ◌≢◌, refl, ap, List, [], ◌∷◌, none, some,
  Bytes, length, take, drop, arith, true, false, min, leb, bit_and, bit_or, All, take_all,
}
use native.Mathlib.Nat.{pow-suc}
use go_rsyncfs.Base.Bits.{or_step}
use go_rsyncfs.Io.{ok}
use go_rsyncfs.Delta.{literal}
use go_rsyncfs.Checksum.{checksum1}
use go_rsyncfs.Checksum.Rolling.{weighted_sum, checksum1-sums}
use go_rsyncfs.Sender.Match.{
  BlockSum, Search, Table, at_end, build_table, empty_table, fresh_window, send_literal_fill,
  flushes, no_match, roll, search_round, search_rounds, hash_search, last_of, find_match, is_match,
}
use go_rsyncfs.Sender.Match.Table.{get_elem?, AllOf, chains-All}
use go_rsyncfs.Sender.Match.Rolling.{rolling_checksum-sums}

bit_or_below : (k a b : ℕ) → a < 2 ^ k → b < 2 ^ k → bit_or a b < 2 ^ k
bit_or_below zero zero zero p q = omega (arith)
bit_or_below zero zero (suc b) p q = absurd (omega arith)
bit_or_below zero (suc a) b p q = absurd (omega arith)
bit_or_below (suc k) a b p q = omega (
  arith,
  or_step a b,
  pow-suc 2 k,
  bit_or_below k (a / 2) (b / 2) (omega (arith, pow-suc 2 k)) (omega (arith, pow-suc 2 k)),
)

module _ (strong : ℕ → Bytes → Bytes) (s : Bytes) (blen last_len : ℕ) (table : Table) where
  no_high_match :
      (w : Search) (b : BlockSum)
      → w.s1 < 2 ^ 16
      → w.s2 < 2 ^ 16
      → 2 ^ 16 ≤ b.sum1
      → is_match strong s blen last_len table w b ≡ false
  unfolding is_match
  no_high_match w b low1 low2 high = ground (arith, bit_or_below 16 w.s1 w.s2)

  fresh_misses :
      (offset m : ℕ) (chain : List (ℕ × BlockSum))
      → All (AllOf (λ (i : ℕ) (b : BlockSum). 2 ^ 16 ≤ b.sum1)) chain
      → find_match strong s blen last_len table (fresh_window s blen offset m) chain ≡ none
  unfolding find_match fresh_window
  fresh_misses offset m [] all = refl
  fresh_misses offset m ((i, b) ∷ chain) all =
      let e = rolling_checksum-sums (take (min blen (length s - offset)) (drop offset s)) in
      rw
        (
          find_match,
          no_high_match (fresh_window s blen offset m) b (rw e (omega arith)) (rw e (omega arith))
              all.0,
        )
        (fresh_misses offset m chain all.1)

module _ (strong : ℕ → Bytes → Bytes) (s : Bytes) (blen : ℕ) (table : Table)
    (some_data : 0 < length s) (fits : length s < 2 ^ 31)
    (chains : (key : ℕ) → All (AllOf (λ (i : ℕ) (b : BlockSum). 2 ^ 16 ≤ b.sum1)) (table key)) where
  first_moves :
      no_match strong s blen (length s) table (fresh_window s blen 0 0)
      ≡ some ([], roll s (fresh_window s blen 0 0))
  unfolding no_match flushes
  first_moves =
      let inside : leb (length s) (fresh_window s blen 0 0).offset ≡ false =
        unfold fresh_window in ground arith in
      let stays : flushes strong s blen (length s) table (fresh_window s blen 0 0) ≡ false =
        unfold fresh_window in ground arith in
      rw (inside, stays) refl

  first_round :
      search_round strong s blen (length s) table (fresh_window s blen 0 0)
      ≡ some ([], roll s (fresh_window s blen 0 0))
  unfolding search_round
  first_round =
      let w = fresh_window s blen 0 0 in
      rw
        (
          search_round,
          fresh_misses strong s blen (length s) table 0 0 (table (bit_and (w.s1 + w.s2) 0xffff))
              (chains _),
        )
        first_moves

  ends_at_once : at_end (length s) (length s) (roll s (fresh_window s blen 0 0)).offset ≡ true
  unfolding at_end roll fresh_window
  ends_at_once = ground arith

  whole_fill : send_literal_fill s 0 (length s) ≡ literal s ∷ []
  unfolding send_literal_fill
  whole_fill =
      let some_left : leb (length s) 0 ≡ false = ground arith in
      rw some_left (ap (λ (t : Bytes). literal t ∷ []) (take_all (length s - 0) s (omega arith)))

  all_literal :
      (fuel : ℕ) (rest : Bytes)
      → search_rounds strong s blen (length s) table (suc fuel) (fresh_window s blen 0 0) rest
        ≡ ok (literal s ∷ []) rest
  unfolding search_rounds roll fresh_window
  all_literal fuel rest = rw (search_rounds, first_round, ends_at_once, whole_fill) refl

-- The block that a client sends of a file that is no longer than a block.
abbrev pub whole_block : Bytes → Bytes → BlockSum
whole_block s sum2 = record { sum1 = checksum1 s; sum2 = sum2; len = length s }

-- A file of one block that the client has as it is: hashSearch sends it whole, as literal data,
-- unless the weighted sum of its bytes is a multiple of 2 ^ 16. It is not empty, and shorter than
-- 2 ^ 31 bytes.
pub hash_search_misses :
    (strong : ℕ → Bytes → Bytes) (s sum2 : Bytes) (blen : ℕ) (rest : Bytes)
    → 0 < length s
    → length s < 2 ^ 31
    → weighted_sum s % 2 ^ 16 ≢ 0
    → hash_search strong s blen (whole_block s sum2 ∷ []) rest ≡ ok (literal s ∷ []) rest
unfolding hash_search last_of
hash_search_misses strong s sum2 blen rest some_data fits odd =
    all_literal strong s blen (build_table 0 empty_table (whole_block s sum2 ∷ [])) some_data fits
      (chains-All (λ (i : ℕ) (b : BlockSum). 2 ^ 16 ≤ b.sum1) (whole_block s sum2 ∷ []) only)
      (length s) rest
  where
    high : 2 ^ 16 ≤ checksum1 s
    high = omega (arith, checksum1-sums s)

    only : (i : ℕ) (b : BlockSum) → get_elem? (whole_block s sum2 ∷ []) i ≡ some b → 2 ^ 16 ≤ b.sum1
    only zero b e = ground (arith, high)
    only (suc i) b e = cc
