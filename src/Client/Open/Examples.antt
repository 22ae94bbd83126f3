-- ===== src/Client/Open/Examples.antt =====
-- A transfer of a file of four bytes, and base names.
use go_rsyncfs.Base.{
  ◌≡◌, ◌≢◌, refl, [], ◌∷◌, ◌++◌, Option, some, Bytes, true, false, arith, ap, Bool,
}
use go_rsyncfs.Io.{ok, wrote}
use go_rsyncfs.Wire.Ndx.{NdxState, new_ndx_state}
use go_rsyncfs.Checksum.{Digest, md4, md5, other}
use go_rsyncfs.Flist.Entry.{Entry, empty_entry}
use go_rsyncfs.Sender.FileList.{FileEntry, TransferState}
use go_rsyncfs.Sender.Finish.{LoopState, next}
use go_rsyncfs.Sender.Transfer.{send_file}
use go_rsyncfs.Client.Info.{flist_info}
use go_rsyncfs.Client.Open.{base_name, after_last_slash, open_request, open_reply}
use go_rsyncfs.Client.Open.Delivers.{CanOpen, serve_round, settings, open_file-serve_round}

name_of_path :
    base_name (
      b'd' ∷ b'o' ∷ b'c' ∷ b's' ∷ b'/' ∷ b'a' ∷ b'/' ∷ b'r' ∷ b'e' ∷ b'a' ∷ b'd' ∷ b'm' ∷ b'e' ∷ [])
    ≡ (b'r' ∷ b'e' ∷ b'a' ∷ b'd' ∷ b'm' ∷ b'e' ∷ [])
unfolding base_name after_last_slash
name_of_path = refl

abbrev content : Bytes
content = 7 ∷ 3 ∷ 4 ∷ 9 ∷ []

abbrev walked : FileEntry
walked = record {
  name = b'a' ∷ [];
  mode = 0x1a4;
  size = 4;
  mod_unix = 5;
  mod_nanosecond = 0;
  link_target = [];
  uid = 0;
  gid = 0;
  dev = 0;
  ino = 0;
  nlink = 1;
}

abbrev sender : TransferState
sender = record {
  ver = 31;
  varint = true;
  id0_names = false;
  preserve = (true, true);
  preserve_links = true;
  preserve_devices = true;
  preserve_hlinks = false;
  entries = walked ∷ [];
}

abbrev files : Bytes → Option Bytes
files name = some content

-- A digest of 16 bytes.
abbrev flat : Bytes → Bytes
flat s = 0 ∷ 1 ∷ 2 ∷ 3 ∷ 4 ∷ 5 ∷ 6 ∷ 7 ∷ 8 ∷ 9 ∷ 10 ∷ 11 ∷ 12 ∷ 13 ∷ 14 ∷ 15 ∷ []

abbrev begin : LoopState
begin = record { phase = 0; in_ndx = new_ndx_state; out_ndx = new_ndx_state }

can_open : CanOpen sender files walked content 0 begin
can_open = record {
  small = omega arith;
  named = refl;
  regular = refl;
  file = refl;
  asks = λ e. absurd (omega arith);
  in_range = (omega arith, omega arith);
  out_range = (omega arith, omega arith);
}

is_other : Digest → Bool
is_other md4 = false
is_other md5 = false
is_other other = true

known : md4 ≢ other
unfolding is_other
known = λ e. let f : false ≡ true = ap is_other e in cc

abbrev listed : Entry
listed = record empty_entry { name = b'a' ∷ []; mode = 0x81a4; size = 4 }

open_file-serve_round_example :
    (reply : Bytes) × (in_ndx : NdxState) × (out_ndx : NdxState) × (open_request new_ndx_state 31 0
      ≡ (wrote (open_request new_ndx_state 31 0).0.0, in_ndx))
    × (serve_round sender
          (send_file flat flat (settings sender md4 9 true) files)
          begin
          ((open_request new_ndx_state 31 0).0.0 ++ [])
        ≡ ok (next reply (record { phase = 0; in_ndx = in_ndx; out_ndx = out_ndx })) [])
    × (open_reply flat flat (settings sender md4 9 true) listed new_ndx_state (reply ++ [])
        ≡ ok
            (
              record { info = flist_info (base_name (b'a' ∷ [])) listed; content = content },
              out_ndx,
            )
            [])
open_file-serve_round_example =
    open_file-serve_round flat flat sender md4 9 true files walked content 0 begin listed [] []
      (λ v. refl) (λ v. refl) known can_open
