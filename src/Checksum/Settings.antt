-- ===== src/Checksum/Settings.antt =====
-- The calls of Checksum2 and FileChecksum with what a session agreed on.
use go_rsyncfs.Base.{ℕ, Bool, Bytes, [], Option, none, some, ◌==◌, if◌then◌else◌}
use go_rsyncfs.Checksum.{Digest, checksum2, file_checksum, SumHead}

-- The checksums that a session agreed on.
pub record ChecksumSettings : Type 0 where
  pub ver : ℕ
  pub digest : Digest
  pub seed : ℕ
  pub seed_fix : Bool

-- nil is the empty slice.
abbrev pub or_nil : Option Bytes → Bytes
or_nil none = []
or_nil (some s) = s

-- The length of a strong checksum; the heads below version 27 do not have it.
abbrev pub strong_length : SumHead → ℕ
strong_length sh = if sh.s2length == 0 then 16 else sh.s2length

module _ (md4_sum md5_sum : Bytes → Bytes) (c : ChecksumSettings) where
  unfoldable pub strong_sum : ℕ → Bytes → Bytes
  strong_sum n w = or_nil (checksum2 md4_sum md5_sum w c.digest n c.seed c.seed_fix)

  unfoldable pub whole_sum : Bytes → Bytes
  whole_sum s = or_nil (file_checksum md4_sum md5_sum s c.digest c.ver c.seed)
