-- ===== src/Client/Open/Request.antt =====
-- The request of openFile, as the sender reads it.
use go_rsyncfs.Base.{
  ℕ, ◌+◌, ◌^◌, ◌<◌, ◌≡◌, refl, [], ◌++◌, Bytes, arith, inl, inr, Bool-cases, leb, if◌then◌else◌,
}
use go_rsyncfs.Io.{ok}
use go_rsyncfs.Wire.Ndx.{NdxState}
use go_rsyncfs.Checksum.{write_sum_head, max_block_length}
use go_rsyncfs.Checksum.Heads.{IsSafe, IsWire, read_sum_head-write_sum_head}
use go_rsyncfs.Selector.{Selector, write_selector}
use go_rsyncfs.Selector.RoundTrip.{IsSelector}
use go_rsyncfs.Sender.Transfer.{receive_sums}
use go_rsyncfs.Client.Open.{open_selector, null_head}

-- The selector as the sender reads it: the flag behind the 16 bits is lost.
abbrev pub received_selector : ℕ → ℕ → Selector
received_selector version ndx = record {
  ndx = ndx;
  iflags = if leb 29 version then 2 ^ 15 else 2 ^ 15 + 2 ^ 16;
  basis_type = 0;
  xname = [];
}

pub received-IsSelector :
    (version ndx : ℕ) → ndx < 2 ^ 31 → IsSelector version (received_selector version ndx)
received-IsSelector version ndx h = record {
  ndx_fits = (omega arith, ground arith);
  iflags_sent = λ e. ground arith;
  iflags_default = λ e. ground arith;
  no_basis_type = λ e. refl;
  no_xname = λ e. refl;
  xname_fits = omega arith;
}

pub same_request :
    (s : NdxState) (version ndx : ℕ)
    → write_selector s version (open_selector ndx)
      ≡ write_selector s version (received_selector version ndx)
unfolding write_selector
same_request s version ndx = elim (Bool-cases (leb 29 version)) [
  | inl new ↦ rw new refl
  | inr old ↦ rw old refl
]

pub null-IsSafe : (version : ℕ) → IsSafe version null_head
unfolding max_block_length
null-IsSafe version = record {
  count_nonneg = omega arith;
  blength_le = ground arith;
  blocks = λ h. absurd (omega arith);
  total_le = omega arith;
  s2length_le = omega arith;
}

pub null-IsWire : (version : ℕ) → IsWire version null_head
null-IsWire version = record { remainder_fits = omega arith; no_s2length = λ h. refl }

pub receive_no_sums :
    (version : ℕ) (rest : Bytes)
    → receive_sums version (write_sum_head null_head version ++ rest) ≡ ok (null_head, []) rest
unfolding receive_sums
receive_no_sums version rest =
    rw
      (read_sum_head-write_sum_head version null_head rest (null-IsSafe version)
        (null-IsWire version))
      refl
