-- ===== src/Checksum/Heads.antt =====
-- What ReadSumHead accepts, and that it reads back what WriteSumHead wrote.
use go_rsyncfs.Base.{
  ℕ, ◌*◌, ◌/◌, ◌^◌, ◌≤◌, ◌<◌, ◌≡◌, ◌++◌, Bytes, length, arith, inl, inr, leb, if◌then◌else◌,
}
use go_rsyncfs.Io.{ok}
use go_rsyncfs.Io.Laws.{read_full-append, read_full_cases}
use go_rsyncfs.Wire.Le.{le_bytes, le_value-le_bytes}
use go_rsyncfs.Wire.Fixed.{IsU32}
use go_rsyncfs.Checksum.{
  SumHead, write_sum_head, read_sum_head, check_sum_head, parse_sum_head, max_block_length,
  max_strong_hash_length,
}

-- A head whose count and lengths are safe to compute with: not negative, the block length within
-- the cap of the version and not 0 if there are blocks, the blocks together no longer than a file,
-- the strong length at most 16. Of the remainder nothing is said: ReadSumHead takes any int32.
pub record IsSafe (version : ℕ) (sh : SumHead) : Type 0 where
  pub count_nonneg : sh.count < 2 ^ 31
  pub blength_le : sh.blength ≤ max_block_length version
  pub blocks : 0 < sh.count → 0 < sh.blength
  pub total_le : sh.count * sh.blength ≤ 0x7fff_ffff
  pub s2length_le : sh.s2length ≤ max_strong_hash_length

total_of_quotient : (c b : ℕ) → 0 < b → c ≤ 0x7fff_ffff / b → c * b ≤ 0x7fff_ffff
total_of_quotient c b pos h = grind arith

quotient_of_total : (c b : ℕ) → 0 < b → c * b ≤ 0x7fff_ffff → c ≤ 0x7fff_ffff / b
quotient_of_total c b pos h = grind arith

check_sum_head-IsSafe :
    (version : ℕ) (sh sh' : SumHead) (s rest : Bytes)
    → (version < 27 → sh.s2length ≡ 0)
    → check_sum_head version sh s ≡ ok sh' rest
    → IsSafe version sh'
unfolding check_sum_head
check_sum_head-IsSafe version sh sh' s rest old e =
    ground (arith, total_of_quotient sh.count sh.blength)

check_sum_head-accepts :
    (version : ℕ) (sh : SumHead) (s : Bytes)
    → IsSafe version sh
    → check_sum_head version sh s ≡ ok sh s
unfolding check_sum_head max_block_length
check_sum_head-accepts version sh s safe =
    ground (arith, safe.blocks, quotient_of_total sh.count sh.blength)

parsed_s2length : (version : ℕ) (b : Bytes) → version < 27 → (parse_sum_head version b).s2length ≡ 0
unfolding parse_sum_head
parsed_s2length version b h = ground arith

-- In every head that ReadSumHead returns, from any bytes at all, the count, the block length and the
-- strong length are safe; the remainder may be any.
pub read_sum_head-IsSafe :
    (version : ℕ) (s rest : Bytes) (sh : SumHead)
    → read_sum_head version s ≡ ok sh rest
    → IsSafe version sh
unfolding read_sum_head
read_sum_head-IsSafe version s rest sh e =
    elim (read_full_cases (if leb 27 version then 16 else 12) s) [
      | inl (b, t, r) ↦
          check_sum_head-IsSafe version (parse_sum_head version b) sh t rest
            (parsed_s2length version b) (ground (arith, r))
      | inr r ↦ ground (arith, r)
    ]

-- The numbers of a head as int32s; below version 27 there is no strong length.
pub record IsWire (version : ℕ) (sh : SumHead) : Type 0 where
  pub remainder_fits : IsU32 sh.remainder
  pub no_s2length : version < 27 → sh.s2length ≡ 0

module _ (version : ℕ) (sh : SumHead) (rest : Bytes) (safe : IsSafe version sh)
    (wire : IsWire version sh) where
  blength_fits : IsU32 sh.blength
  unfolding max_block_length
  blength_fits = ground arith

  head_length : length (write_sum_head sh version) ≡ (if leb 27 version then 16 else 12)
  unfolding write_sum_head le_bytes
  head_length = ground arith

  parse-write : parse_sum_head version (write_sum_head sh version) ≡ sh
  unfolding write_sum_head parse_sum_head le_bytes
  parse-write = ground (
    arith,
    le_value-le_bytes 4 sh.count,
    le_value-le_bytes 4 sh.blength,
    le_value-le_bytes 4 sh.s2length,
    le_value-le_bytes 4 sh.remainder,
    blength_fits,
    wire.no_s2length,
  )

  -- ReadSumHead reads back every head that WriteSumHead wrote for the same version, with a safe count
  -- and safe lengths, any int32 as the remainder and, below version 27, a strong length of 0.
  pub read_sum_head-write_sum_head :
      read_sum_head version (write_sum_head sh version ++ rest) ≡ ok sh rest
  unfolding read_sum_head
  read_sum_head-write_sum_head =
      rw (read_full-append _ (write_sum_head sh version) rest head_length, parse-write)
        (check_sum_head-accepts version sh rest safe)
