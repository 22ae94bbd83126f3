-- ===== src/Sender/Transfer/Examples.antt =====
-- A transfer of four bytes to a client that has two of them, with a sum of the bytes for MD4 and MD5.
use go_rsyncfs.Base.{
  ℕ, zero, suc, ◌^◌, ◌-◌, ◌≡◌, refl, List, [], ◌∷◌, ◌++◌, Option, none, some, Bytes, length, take,
  drop, true, arith, ◌+◌, ◌≤◌, ◌%◌,
}
use mathlib.Core.Path.{subst}
use go_rsyncfs.Io.{ok, err, panic, read_full, split_at}
use go_rsyncfs.Wire.Le.{le_bytes, le_value}
use go_rsyncfs.Wire.Fixed.{read_int32}
use go_rsyncfs.Checksum.{
  md4, SumHead, read_sum_head, write_sum_head, check_sum_head, parse_sum_head, field,
  max_block_length, checksum2, seed_bytes,
}
use go_rsyncfs.Checksum.Settings.{ChecksumSettings, strong_sum, whole_sum}
use go_rsyncfs.Delta.{Token, parse_delta_stream}
use go_rsyncfs.Delta.RoundTrip.{rebuild}
use go_rsyncfs.Sender.Match.{BlockSum}
use go_rsyncfs.Sender.Match.Table.{get_elem?}
use go_rsyncfs.Sender.Transfer.{read_sums, set_last_len, receive_sums, match_sums}
use go_rsyncfs.Sender.Transfer.Received.{IsReceived, receive_sums-IsReceived}
use go_rsyncfs.Sender.Transfer.Stream.{
  HasBlocks, NoCollision, match_sums-rebuild, match_sums-panics,
}

abbrev file : Bytes
file = 7 ∷ 1 ∷ 0 ∷ 9 ∷ []

abbrev plain : Bytes → Bytes
plain s = s

abbrev session : ChecksumSettings
session = record { ver = 31; digest = md4; seed = 0; seed_fix = true }

-- One block of two bytes, with a strong checksum of two.
abbrev head : SumHead
head = record { count = 1; blength = 2; s2length = 2; remainder = 0 }

abbrev sent : Bytes
sent = write_sum_head head 31 ++ (le_bytes 4 3 ++ (1 ∷ 0 ∷ []))

abbrev sums : List BlockSum
sums = record { sum1 = 3; sum2 = 1 ∷ 0 ∷ []; len = 2 } ∷ []

abbrev basis : ℕ → Bytes
basis i = 1 ∷ 0 ∷ []

honest_answer : receive_sums 31 sent ≡ ok (head, sums) []
unfolding receive_sums read_sums read_sum_head check_sum_head parse_sum_head max_block_length field
    write_sum_head read_full split_at read_int32 le_bytes le_value set_last_len
honest_answer = refl

receive_sums-IsReceived_example : IsReceived 31 head sums
receive_sums-IsReceived_example = receive_sums-IsReceived 31 sent [] head sums honest_answer

-- The sum of the bytes, with other bytes to 16: many data have the same one.
abbrev total : Bytes → ℕ
total [] = 0
total (x ∷ s) = x + total s

abbrev added : Bytes → Bytes
added s = total s % 256 ∷ 0 ∷ 0 ∷ 0 ∷ 0 ∷ 0 ∷ 0 ∷ 0 ∷ 0 ∷ 0 ∷ 0 ∷ 0 ∷ 0 ∷ 0 ∷ 0 ∷ 0 ∷ []

-- What HasBlocks and NoCollision ask for the block of an option.
abbrev HasData : Option BlockSum → Type 0
HasData none = Unit
HasData (some b) = strong_sum added added session (length b.sum2) (1 ∷ 0 ∷ []) ≡ b.sum2

abbrev IsApart : ℕ → Option BlockSum → Type 0
IsApart o none = Unit
IsApart o (some b) =
    o + b.len ≤ length file
    → strong_sum added added session (length b.sum2) (take b.len (drop o file))
      ≡ strong_sum added added session (length b.sum2) (1 ∷ 0 ∷ [])
    → take b.len (drop o file) ≡ 1 ∷ 0 ∷ []

two_bytes : HasData (get_elem? sums 0)
unfolding strong_sum checksum2 seed_bytes
two_bytes = refl

has_block : HasBlocks added added session file head sums basis
has_block zero b e = subst HasData e two_bytes
has_block (suc i) b e = cc

windows-IsApart : (o : ℕ) → IsApart o (get_elem? sums 0)
unfolding strong_sum checksum2 seed_bytes
windows-IsApart zero within e = cc
windows-IsApart (suc zero) within e = refl
windows-IsApart (suc (suc zero)) within e = cc
windows-IsApart (suc (suc (suc o))) within e = absurd (omega arith)

no_collision : NoCollision added added session file head sums basis
no_collision zero b o e = subst (IsApart o) e (windows-IsApart o)
no_collision (suc i) b o e = cc

match_sums-rebuild_example :
    (out : Bytes) × (ts : List Token) × (match_sums added added session file head sums []
      ≡ ok out [])
    × (parse_delta_stream (out ++ (5 ∷ []))
        ≡ ok ts (whole_sum added added session file ++ (5 ∷ [])))
    × (rebuild basis ts ≡ file)
match_sums-rebuild_example =
    match_sums-rebuild added added session file head sums basis sent [] [] (5 ∷ []) honest_answer
      (omega arith) has_block no_collision

-- A head whose remainder is -1.
abbrev hostile_head : SumHead
hostile_head = record { count = 1; blength = 2; s2length = 2; remainder = 2 ^ 32 - 1 }

abbrev hostile : Bytes
hostile = write_sum_head hostile_head 31 ++ (le_bytes 4 3 ++ (1 ∷ 0 ∷ []))

abbrev hostile_sums : List BlockSum
hostile_sums = record { sum1 = 3; sum2 = 1 ∷ 0 ∷ []; len = 2 ^ 32 - 1 } ∷ []

hostile_answer : receive_sums 31 hostile ≡ ok (hostile_head, hostile_sums) []
unfolding receive_sums read_sums read_sum_head check_sum_head parse_sum_head max_block_length field
    write_sum_head read_full split_at read_int32 le_bytes le_value set_last_len
hostile_answer = refl

match_sums-panics_example :
    match_sums plain plain session file hostile_head hostile_sums [] ≡ err panic []
match_sums-panics_example =
    match_sums-panics plain plain session file hostile_head hostile_sums hostile [] []
      hostile_answer (omega arith) (omega arith) (omega arith)
