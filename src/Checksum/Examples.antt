-- ===== src/Checksum/Examples.antt =====
-- Concrete checksums and heads, and the theorems at them.
use go_rsyncfs.Base.{◌+◌, ◌*◌, ◌%◌, ◌^◌, ◌≡◌, refl, [], ◌∷◌, ◌++◌, Bytes, length, arith}
use go_rsyncfs.Io.{ok, err, invalid_block_length, read_full}
use go_rsyncfs.Wire.Le.{le_bytes, le_value}
use go_rsyncfs.Checksum.{
  checksum1, checksum1_loop, checksum1_tail, SumHead, write_sum_head, read_sum_head, check_sum_head,
  parse_sum_head, field, max_block_length,
}
use go_rsyncfs.Checksum.Rolling.{
  plain_sum, weighted_sum, low_half, high_half, checksum1-sums, checksum1_roll,
}
use go_rsyncfs.Checksum.Heads.{IsSafe, IsWire, read_sum_head-IsSafe, read_sum_head-write_sum_head}

abbrev window : Bytes
window = 1 ∷ 2 ∷ 3 ∷ 4 ∷ 5 ∷ []

abbrev head : SumHead
head = record { count = 3; blength = 700; s2length = 16; remainder = 100 }

checksum1_of_data : checksum1 window ≡ 15 + 35 * 2 ^ 16
unfolding checksum1 checksum1_loop checksum1_tail
checksum1_of_data = refl

read_head : read_sum_head 31 (write_sum_head head 31 ++ (7 ∷ [])) ≡ ok head (7 ∷ [])
unfolding read_sum_head check_sum_head parse_sum_head max_block_length field write_sum_head
    read_full le_bytes le_value
read_head = refl

-- A block length that version 29 takes is refused from version 30 on.
refused_head :
    read_sum_head 30 (write_sum_head (record head { blength = 0x4_0000 }) 30)
    ≡ err invalid_block_length []
unfolding read_sum_head check_sum_head parse_sum_head max_block_length field write_sum_head
    read_full le_bytes le_value
refused_head = refl

checksum1-sums_example :
    checksum1 window ≡ plain_sum window % 2 ^ 16 + weighted_sum window % 2 ^ 16 * 2 ^ 16
checksum1-sums_example = checksum1-sums window

checksum1_roll_example :
    ((low_half (checksum1 (window ++ (9 ∷ []))) + 8) % 2 ^ 16
      ≡ (low_half (checksum1 (8 ∷ window)) + 9) % 2 ^ 16)
    × ((high_half (checksum1 (window ++ (9 ∷ []))) + (length window + 1) * 8) % 2 ^ 16
        ≡ (high_half (checksum1 (8 ∷ window)) + low_half (checksum1 (window ++ (9 ∷ [])))) % 2 ^ 16)
checksum1_roll_example = checksum1_roll 8 9 window

read_sum_head-IsSafe_example : IsSafe 31 head
read_sum_head-IsSafe_example =
    read_sum_head-IsSafe 31 (write_sum_head head 31 ++ (7 ∷ [])) (7 ∷ []) head read_head

head-IsSafe : IsSafe 31 head
unfolding max_block_length
head-IsSafe = record {
  count_nonneg = omega arith;
  blength_le = omega arith;
  blocks = λ h. omega arith;
  total_le = omega arith;
  s2length_le = omega arith;
}

head-IsWire : IsWire 31 head
head-IsWire = record { remainder_fits = omega arith; no_s2length = λ h. absurd (omega arith) }

read_sum_head-write_sum_head_example :
    read_sum_head 31 (write_sum_head head 31 ++ (7 ∷ [])) ≡ ok head (7 ∷ [])
read_sum_head-write_sum_head_example =
    read_sum_head-write_sum_head 31 head (7 ∷ []) head-IsSafe head-IsWire
