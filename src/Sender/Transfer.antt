-- ===== src/Sender/Transfer.antt =====
-- The transfer of a file by the sender (server-send.go): receiveSums, matchSums and sendFile, over
-- a file system that is a parameter.
pub mod Received
pub mod Stream
mod Examples
use go_rsyncfs.Base.{
  ℕ, zero, suc, ◌^◌, bit_and, Bool, not, ◌&&◌, List, [], ◌∷◌, ◌++◌, Option, none, some, Bytes,
  length, ltb, leb, ◌==◌, if◌then◌else◌,
}
use go_rsyncfs.Io.{Reader, ◌>>=◌, return, fail, read_full, not_regular, open_failed}
use go_rsyncfs.Wire.Fixed.{read_int32}
use go_rsyncfs.Wire.Ndx.{NdxState}
use go_rsyncfs.Checksum.{Digest, checksum2, file_checksum, SumHead, read_sum_head, write_sum_head}
use go_rsyncfs.Checksum.Settings.{ChecksumSettings, strong_sum, whole_sum, strong_length}
use go_rsyncfs.Selector.{Selector, write_selector}
use go_rsyncfs.Delta.{Token, literal, write_delta_stream}
use go_rsyncfs.Sender.FileList.{FileEntry, mode_type}
use go_rsyncfs.Sender.Finish.{sent_or_failed}
use go_rsyncfs.Sender.Match.{BlockSum, hash_search}

-- The loop over the blocks; the uint32 of an int32 is the same word.
unfoldable pub read_sums : ℕ → ℕ → ℕ → Reader (List BlockSum)
read_sums zero s2len blength = return []
read_sums (suc n) s2len blength = do
  s1 ← read_int32
  s2 ← read_full s2len
  sums ← read_sums n s2len blength
  return (record { sum1 = s1; sum2 = s2; len = blength } ∷ sums)

-- `sums[len(sums)-1].len = n`
unfoldable pub set_last_len : ℕ → List BlockSum → List BlockSum
set_last_len n [] = []
set_last_len n (b ∷ []) = record b { len = n } ∷ []
set_last_len n (b ∷ c ∷ sums) = b ∷ set_last_len n (c ∷ sums)

unfoldable pub receive_sums : ℕ → Reader (SumHead × List BlockSum)
receive_sums version = do
  sh ← read_sum_head version
  if sh.count == 0 then return (sh, []) else (do
    sums ← read_sums sh.count (strong_length sh) sh.blength
    return (sh, if sh.remainder == 0 then sums else set_last_len sh.remainder sums))

-- MD4 and MD5 are parameters, as in Checksum.
module _ (md4_sum md5_sum : Bytes → Bytes) (c : ChecksumSettings) where
  unfoldable pub match_tokens : Bytes → SumHead → List BlockSum → Reader (List Token)
  match_tokens s sh sums =
      if ltb 0 (length s) && ltb 0 sh.count
      then hash_search (strong_sum md4_sum md5_sum c) s sh.blength sums
      else return (literal s ∷ [])

  -- WriteEnd comes last in a delta stream.
  unfoldable pub match_sums : Bytes → SumHead → List BlockSum → Reader Bytes
  match_sums s sh sums = do
    ts ← match_tokens s sh sums
    return (write_delta_stream ts ++ whole_sum md4_sum md5_sum c s)

  -- The data of an entry: `files` is FS.Open and io.ReadAll by name, none for an error of theirs.
  unfoldable pub entry_data : (Bytes → Option Bytes) → FileEntry → Reader Bytes
  entry_data files e =
      if bit_and e.mode mode_type == 0
      then elim (files e.name) [ none ↦ fail open_failed | some s ↦ return s ]
      else if leb 30 c.ver
      then fail not_regular
      else return []

  unfoldable pub send_file :
      (Bytes → Option Bytes) → FileEntry → Selector → NdxState → Reader (Bytes × NdxState)
  send_file files e sel out_ndx = do
    (sh, sums) ← receive_sums c.ver
    s ← entry_data files e
    (echo, out_ndx') ← sent_or_failed (write_selector out_ndx c.ver sel)
    delta ← match_sums s sh sums
    return (echo ++ (write_sum_head sh c.ver ++ delta), out_ndx')
