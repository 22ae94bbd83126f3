-- ===== src/Checksum.antt =====
-- protocol/checksum.go: the rolling checksum, the strong checksums over two hash functions, and
-- the checksum header.
pub mod Rolling
pub mod Heads
pub mod Settings
mod Examples
use go_rsyncfs.Base.{
  ℕ, ◌+◌, ◌-◌, ◌*◌, ◌/◌, ◌%◌, ◌^◌, bit_and, bit_or, Bool, not, ◌&&◌, ◌||◌, List, [], ◌∷◌, ◌++◌,
  Bytes, Option, none, some, length, take, drop, leb, ltb, ◌==◌, if◌then◌else◌,
}
use go_rsyncfs.Io.{
  Reader, ◌>>=◌, return, fail, read_full, Output, wrote, invalid_count, invalid_block_length,
  zero_block_length, count_too_large, invalid_checksum_length,
}
use go_rsyncfs.Wire.Le.{le_bytes, le_value}
use go_rsyncfs.Wire.Fixed.{is_neg32}

-- `for ; i < len(data); i++` of Checksum1; the sums are uint32.
unfoldable pub checksum1_tail : ℕ → ℕ → Bytes → ℕ × ℕ
checksum1_tail s1 s2 [] = (s1, s2)
checksum1_tail s1 s2 (b ∷ s) =
    let s1' = (s1 + b) % 2 ^ 32 in checksum1_tail s1' ((s2 + s1') % 2 ^ 32) s

-- The loop over four bytes at a time.
unfoldable pub checksum1_loop : ℕ → ℕ → Bytes → ℕ × ℕ
unfolding checksum1_tail
checksum1_loop s1 s2 (a ∷ b ∷ c ∷ d ∷ s) =
    checksum1_loop ((s1 + (a + b + c + d)) % 2 ^ 32)
      ((s2 + (4 * (s1 + a) + 3 * b + 2 * c + d)) % 2 ^ 32) s
checksum1_loop s1 s2 s = checksum1_tail s1 s2 s

unfoldable pub checksum1 : Bytes → ℕ
unfolding checksum1_loop
checksum1 s =
    let (s1, s2) = checksum1_loop 0 0 s in bit_or (bit_and s1 0xffff) (s2 * 2 ^ 16 % 2 ^ 32)

pub data Digest : Type 0 where
  md4 md5 other : Digest

-- The seed as it is mixed in: nothing if it is 0.
unfoldable pub seed_bytes : ℕ → Bytes
seed_bytes seed = if not (seed == 0) then le_bytes 4 seed else []

-- `md4.New()` and `md5.New()`, of golang.org/x/crypto and the standard library, are parameters: the
-- digest of all bytes written. An unsupported digest name gives nil.
module _ (md4_sum md5_sum : Bytes → Bytes) where
  unfoldable pub checksum2 : Bytes → Digest → ℕ → ℕ → Bool → Option Bytes
  unfolding seed_bytes
  checksum2 s md4 s2_length seed seed_fix = some (take s2_length (md4_sum (s ++ seed_bytes seed)))
  checksum2 s md5 s2_length seed seed_fix =
      some
        (take s2_length (md5_sum (if seed_fix then seed_bytes seed ++ s else s ++ seed_bytes seed)))
  checksum2 s other s2_length seed seed_fix = none

  unfoldable pub file_checksum : Bytes → Digest → ℕ → ℕ → Option Bytes
  unfolding seed_bytes
  file_checksum s md4 version seed =
      some (md4_sum (if ltb version 30 then seed_bytes seed ++ s else s))
  file_checksum s md5 version seed = some (md5_sum s)
  file_checksum s other version seed = none

pub record SumHead : Type 0 where
  pub count : ℕ
  pub blength : ℕ
  pub s2length : ℕ
  pub remainder : ℕ

unfoldable pub write_sum_head : SumHead → ℕ → Bytes
write_sum_head sh version =
    if leb 27 version
    then le_bytes 4 sh.count
      ++ (le_bytes 4 sh.blength ++ (le_bytes 4 sh.s2length ++ le_bytes 4 sh.remainder))
    else le_bytes 4 sh.count ++ (le_bytes 4 sh.blength ++ le_bytes 4 sh.remainder)

unfoldable pub max_block_length : ℕ → ℕ
max_block_length version = if leb 30 version then 2 ^ 17 else 2 ^ 29

abbrev pub max_strong_hash_length : ℕ
max_strong_hash_length = 16

-- The guards of ReadSumHead, in their order.
unfoldable pub check_sum_head : ℕ → SumHead → Reader SumHead
unfolding max_block_length
check_sum_head version sh =
    if is_neg32 sh.count
    then fail invalid_count
    else if is_neg32 sh.blength || ltb (max_block_length version) sh.blength
    then fail invalid_block_length
    else if ltb 0 sh.count && sh.blength == 0
    then fail zero_block_length
    else if ltb 0 sh.blength && ltb (0x7fff_ffff / sh.blength) sh.count
    then fail count_too_large
    else if leb 27 version && (is_neg32 sh.s2length || ltb max_strong_hash_length sh.s2length)
    then fail invalid_checksum_length
    else return sh

unfoldable pub field : ℕ → Bytes → ℕ
field i b = le_value (take 4 (drop i b))

unfoldable pub parse_sum_head : ℕ → Bytes → SumHead
unfolding field
parse_sum_head version b =
    if leb 27 version
    then record {
      count = field 0 b;
      blength = field 4 b;
      s2length = field 8 b;
      remainder = field 12 b;
    }
    else record { count = field 0 b; blength = field 4 b; s2length = 0; remainder = field 8 b }

unfoldable pub read_sum_head : ℕ → Reader SumHead
read_sum_head version = do
  b ← read_full (if leb 27 version then 16 else 12)
  check_sum_head version (parse_sum_head version b)
