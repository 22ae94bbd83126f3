-- ===== src/Client/Open.antt =====
-- The transfer of a file to the client (client-open.go openFile), and baseName.
pub mod Delta
pub mod Request
pub mod Delivers
mod Examples
use go_rsyncfs.Base.{
  ℕ, zero, suc, ◌+◌, ◌^◌, not, List, [], ◌∷◌, ◌++◌, Option, none, some, Bytes, length, ◌==◌,
  if◌then◌else◌,
}
use go_rsyncfs.Io.{
  Reader, ◌>>=◌, return, fail, read_full, out_of_fuel, checksum_mismatch, Output, wrote, ◌>>>◌,
}
use go_rsyncfs.Wire.Ndx.{NdxState}
use go_rsyncfs.Checksum.{SumHead, read_sum_head, write_sum_head}
use go_rsyncfs.Checksum.Settings.{ChecksumSettings, strong_length, whole_sum}
use go_rsyncfs.Selector.{Selector, read_selector, write_selector}
use go_rsyncfs.Delta.{literal, block, DeltaReader, new_delta_reader, token, end, read_token}
use go_rsyncfs.Equal.{bytes_equal}
use go_rsyncfs.Flist.Entry.{Entry}
use go_rsyncfs.Client.Info.{FlistFileInfo, flist_info}

-- What follows the last "/".
unfoldable pub after_last_slash : Bytes → Option Bytes
after_last_slash [] = none
after_last_slash (b ∷ s) = elim (after_last_slash s) [
  | some t ↦ some t
  | none ↦ if b == b'/' then some s else none
]

unfoldable pub base_name : Bytes → Bytes
unfolding after_last_slash
base_name path = elim (after_last_slash path) [ none ↦ path | some t ↦ t ]

-- ItemTransfer and ItemMissingData.
abbrev pub open_selector : ℕ → Selector
open_selector ndx = record { ndx = ndx; iflags = 2 ^ 15 + 2 ^ 16; basis_type = 0; xname = [] }

-- The head of no sums.
abbrev pub null_head : SumHead
null_head = record { count = 0; blength = 0; s2length = 0; remainder = 0 }

-- What openFile writes, and its index state behind it.
unfoldable pub open_request : NdxState → ℕ → ℕ → Output × NdxState
open_request s version ndx =
    let sent = write_selector s version (open_selector ndx) in
    (sent.0 >>> wrote (write_sum_head null_head version), sent.1)

-- The loop over the tokens: the data of a block that the client does not have is nil.
unfoldable pub read_delta : ℕ → DeltaReader → Bytes → Reader Bytes
read_delta zero r s = fail out_of_fuel
read_delta (suc fuel) r s = do
  (e, r') ← read_token r
  elim e [
    | end ↦ return s
    | token (literal t) ↦ read_delta fuel r' (s ++ t)
    | token (block i) ↦ read_delta fuel r' s
  ]

-- Each token takes a byte at least.
unfoldable pub read_file : Reader Bytes
read_file s = read_delta (suc (length s)) new_delta_reader [] s

pub record FlistFile : Type 0 where
  pub info : FlistFileInfo
  pub content : Bytes

module _ (md4_sum md5_sum : Bytes → Bytes) (c : ChecksumSettings) where
  -- What openFile does with the answer.
  unfoldable pub open_reply : Entry → NdxState → Reader (FlistFile × NdxState)
  open_reply e recv_ndx = do
    (echo, recv_ndx') ← read_selector recv_ndx c.ver
    sh ← read_sum_head c.ver
    s ← read_file
    want ← read_full (strong_length sh)
    if not (bytes_equal (whole_sum md4_sum md5_sum c s) want)
        then fail checksum_mismatch
        else return (record { info = flist_info (base_name e.name) e; content = s }, recv_ndx')
