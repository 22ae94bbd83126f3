-- ===== src/Flist/Examples.antt =====
-- Concrete entries, and the theorems at them.
use go_rsyncfs.Base.{◌^◌, ◌≡◌, refl, true, false, [], ◌∷◌, arith}
use go_rsyncfs.Io.{ok, err, panic, read_byte}
use go_rsyncfs.Io.Laws.{Yields}
use go_rsyncfs.Flist.Entry.{has_flag, xmit_same_name, xmit_long_name, Entry, empty_entry}
use go_rsyncfs.Flist.Write.{FlistWriter, new_flist_writer}
use go_rsyncfs.Flist.Read.{read_xflags, new_flist_reader, read_entry}
use go_rsyncfs.Flist.Bounds.{IsSound, read_entry-IsSound}
use go_rsyncfs.Flist.Panics.{read_entry-panics}

-- A regular file that shares a prefix, a mode and a group with the one before it.
abbrev file : Entry
file = record empty_entry {
  name = b'd' ∷ b'/' ∷ b'b' ∷ [];
  mode = 0x81a4;
  size = 2 ^ 33;
  mtime = 1700000000;
  mod_nsec = 5;
  uid = 1000;
}

abbrev behind_a_file : FlistWriter
behind_a_file = record (new_flist_writer 31 true) {
  last_name = b'd' ∷ b'/' ∷ b'a' ∷ [];
  last_mode = 0x81a4;
}

read_entry-IsSound_example :
    Yields
      (IsSound (new_flist_reader 29 false))
      (read_entry (new_flist_reader 29 false) (1 ∷ 1 ∷ b'a' ∷ []))
read_entry-IsSound_example = read_entry-IsSound (new_flist_reader 29 false) (1 ∷ 1 ∷ b'a' ∷ [])

-- The flags of a common prefix, a prefix of 5 bytes behind no name, and a suffix of one byte.
hostile_flags : read_xflags 31 false (32 ∷ 5 ∷ 1 ∷ 7 ∷ 9 ∷ []) ≡ ok 32 (5 ∷ 1 ∷ 7 ∷ 9 ∷ [])
unfolding read_xflags read_byte has_flag
hostile_flags = refl

names_a_prefix : (has_flag 32 xmit_same_name ≡ true) × (has_flag 32 xmit_long_name ≡ false)
unfolding has_flag
names_a_prefix = (refl, refl)

read_entry-panics_example :
    read_entry (new_flist_reader 31 false) (32 ∷ 5 ∷ 1 ∷ 7 ∷ 9 ∷ []) ≡ err panic (9 ∷ [])
read_entry-panics_example =
    read_entry-panics (new_flist_reader 31 false) (32 ∷ 5 ∷ 1 ∷ 7 ∷ 9 ∷ []) 32 5 (7 ∷ []) (9 ∷ [])
      hostile_flags names_a_prefix.0 names_a_prefix.1 (omega arith) (omega arith) (omega arith)
