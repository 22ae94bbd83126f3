-- ===== src/Sender/Match/Examples.antt =====
-- A search that finds its block, and the theorems at it. The strong checksum is the window itself.
use go_rsyncfs.Base.{
  ℕ, zero, suc, ◌^◌, ◌-◌, ◌%◌, ◌<◌, ◌≡◌, ◌≢◌, refl, List, [], ◌∷◌, some, Bytes, take, All, arith,
}
use go_rsyncfs.Io.{ok, err, panic}
use go_rsyncfs.Checksum.{checksum1_loop, checksum1_tail}
use go_rsyncfs.Checksum.Rolling.{weighted_sum}
use go_rsyncfs.Delta.{literal, block}
use go_rsyncfs.Equal.{equal_bytes, bytes_equal}
use go_rsyncfs.Sender.Match.{
  BlockSum, Search, Table, rolling_checksum, send_literal_fill, hash_of, build_table, empty_table,
  rolled_sums, roll, last_of, at_end, fresh_window, is_match, find_match, after_match, flushes,
  no_match, search_round, search_rounds, hash_search,
}
use go_rsyncfs.Sender.Match.Table.{get_elem?}
use go_rsyncfs.Sender.Match.Rolling.{IsRolled, start, round, Reached-IsRolled}
use go_rsyncfs.Sender.Match.Panics.{hash_search-panics}
use go_rsyncfs.Sender.Match.Misses.{whole_block, hash_search_misses}

abbrev file : Bytes
file = 7 ∷ 1 ∷ 0 ∷ 9 ∷ []

abbrev itself : ℕ → Bytes → Bytes
itself n w = take n w

-- A sum that the search takes for the window 1, 0.
abbrev one_block : List BlockSum
one_block = record { sum1 = 3; sum2 = 1 ∷ 0 ∷ []; len = 2 } ∷ []

found :
    hash_search itself file 2 one_block []
    ≡ ok (literal (7 ∷ []) ∷ block 0 ∷ literal (9 ∷ []) ∷ []) []
unfolding hash_search last_of search_rounds search_round no_match flushes after_match find_match
    is_match fresh_window at_end roll rolled_sums build_table hash_of send_literal_fill
    rolling_checksum checksum1_loop checksum1_tail bytes_equal equal_bytes
found = refl

-- The state behind the first round, where the window is 1, 0.
abbrev second : Search
second = record { offset = 1; last_match = 0; k = 2; s1 = 1; s2 = 2 }

abbrev one_table : Table
one_table = build_table 0 empty_table one_block

first_round : search_round itself file 2 2 one_table (fresh_window file 2 0 0) ≡ some ([], second)
unfolding search_round no_match flushes find_match is_match fresh_window at_end roll rolled_sums
    build_table hash_of rolling_checksum checksum1_loop checksum1_tail
first_round = refl

file_bytes : All (λ (b : ℕ). b < 256) file
file_bytes = (omega arith, (omega arith, (omega arith, (omega arith, tt))))

Reached-IsRolled_example : IsRolled file 2 second
Reached-IsRolled_example =
    Reached-IsRolled {strong = itself} {s = file} {blen = 2} {last_len = 2} {table = one_table}
      {w = second} (omega arith) file_bytes (round start first_round)

-- A last block of length -5.
abbrev negative_block : List BlockSum
negative_block = record { sum1 = 3; sum2 = 1 ∷ 0 ∷ []; len = 2 ^ 32 - 5 } ∷ []

negative_not_empty : (i : ℕ) (b : BlockSum) → get_elem? negative_block i ≡ some b → 0 < b.len
negative_not_empty zero b e = ground arith
negative_not_empty (suc i) b e = cc

over_the_end : hash_search itself file 2 negative_block [] ≡ err panic []
unfolding last_of
over_the_end =
    hash_search-panics itself file 2 negative_block
      (record { sum1 = 3; sum2 = 1 ∷ 0 ∷ []; len = 2 ^ 32 - 5 }) [] refl (omega arith)
      negative_not_empty

weighted : weighted_sum (1 ∷ 2 ∷ []) % 2 ^ 16 ≢ 0
unfolding weighted_sum
weighted = λ e. absurd (omega arith)

hash_search_misses_example :
    hash_search itself (1 ∷ 2 ∷ []) 700 (whole_block (1 ∷ 2 ∷ []) (5 ∷ []) ∷ []) []
    ≡ ok (literal (1 ∷ 2 ∷ []) ∷ []) []
hash_search_misses_example =
    hash_search_misses itself (1 ∷ 2 ∷ []) (5 ∷ []) 700 [] (omega arith) (omega arith) weighted
