-- ===== src/Client/Entries/Examples.antt =====
-- A walk of three files, and the theorem at it.
use go_rsyncfs.Base.{
  bit_and, bit_or, ℕ, ◌+◌, ◌^◌, ◌≡◌, refl, inl, inr, List, [], ◌∷◌, ◌++◌, map, All, some, arith,
}
use go_rsyncfs.Base.Sorting.{IsPairwise, sort}
use go_rsyncfs.Flist.Entry.{has_flag}
use go_rsyncfs.Sender.FileList.{FileEntry}
use go_rsyncfs.Sender.Order.{
  components, compare_bytes, compare_components, flist_name_cmp, file_less, sort_flist,
}
use go_rsyncfs.Client.FileList.Delivery.{delivered}
use go_rsyncfs.Client.Info.{wire_mode_to_fs, kept_type, wire_mode_to_fs-mode_to_wire}
use go_rsyncfs.Sender.FileList.{mode_to_wire}
use go_rsyncfs.Client.Entries.{same_bytes, chosen_entry}
use go_rsyncfs.Client.Entries.Ndx.{IsWalked, Differ, chosen_entry-sort_flist}

abbrev walked_file : List ℕ → ℕ → FileEntry
walked_file name mode = record {
  name = name;
  mode = mode;
  size = 0;
  mod_unix = 1700000000;
  mod_nanosecond = 0;
  link_target = [];
  uid = 0;
  gid = 0;
  dev = 1;
  ino = 2;
  nlink = 1;
}

abbrev root : FileEntry
root = walked_file (b'.' ∷ []) (2 ^ 31 + 0x1ed)

abbrev dir : FileEntry
dir = walked_file (b'a' ∷ []) (2 ^ 31 + 0x1ed)

abbrev file : FileEntry
file = walked_file (b'b' ∷ []) 0x1a4

abbrev walk : List FileEntry
walk = root ∷ dir ∷ file ∷ []

-- The file stands before the directory.
sorted_walk : sort_flist 31 walk ≡ (root ∷ []) ++ (file ∷ dir ∷ [])
unfolding sort_flist sort file_less flist_name_cmp components compare_components compare_bytes
    has_flag
sorted_walk = refl

walk-IsWalked : All IsWalked walk
unfolding components
walk-IsWalked = (inl refl, (inr (refl, tt), (inr (refl, tt), tt)))

walk-IsPairwise : IsPairwise Differ walk
unfolding same_bytes
walk-IsPairwise = ((refl, (refl, tt)), ((refl, tt), (tt, tt)))

chosen_entry-sort_flist_example :
    chosen_entry (map (delivered 31) (sort_flist 31 walk)) (b'b' ∷ []) 31
    ≡ some (delivered 31 file, 1)
chosen_entry-sort_flist_example =
    chosen_entry-sort_flist 31 walk (root ∷ []) (dir ∷ []) file walk-IsWalked walk-IsPairwise
      sorted_walk (omega arith)

wire_mode_to_fs-mode_to_wire_example :
    wire_mode_to_fs (mode_to_wire (2 ^ 31 + 0x1ed))
    ≡ bit_or (kept_type (2 ^ 31 + 0x1ed)) (bit_and (2 ^ 31 + 0x1ed) 0x1ff)
wire_mode_to_fs-mode_to_wire_example = wire_mode_to_fs-mode_to_wire (2 ^ 31 + 0x1ed)
