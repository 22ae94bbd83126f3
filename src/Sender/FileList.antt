-- ===== src/Sender/FileList.antt =====
-- The file list as the sender writes it: `fileEntry`, modeToWire and sendFileList of
-- server-send.go, over the walked entries.
use go_rsyncfs.Base.{
  ℕ, ◌+◌, ◌^◌, bit_and, bit_or, Bool, false, List, [], ◌∷◌, ◌++◌, map, Bytes, ◌==◌, if◌then◌else◌,
}
use go_rsyncfs.Flist.Entry.{has_flag, Entry, empty_entry}
use go_rsyncfs.Flist.Write.{
  FlistWriter, new_flist_writer, write_entry, write_end_marker, write_id_lists,
  write_io_error_trailer,
}
use go_rsyncfs.Flist.Write.Setters.{
  set_preserve_uid, set_preserve_gid, set_preserve_devices, set_preserve_links,
  set_preserve_hardlinks, set_id0_names,
}

-- The modification time by its Unix time and its nanoseconds.
pub record FileEntry : Type 0 where
  pub name : Bytes
  pub mode : ℕ
  pub size : ℕ
  pub mod_unix : ℕ
  pub mod_nanosecond : ℕ
  pub link_target : Bytes
  pub uid : ℕ
  pub gid : ℕ
  pub dev : ℕ
  pub ino : ℕ
  pub nlink : ℕ

-- The part of `transferState` that sendFileList reads. `preserve` is a pair of flags.
pub record TransferState : Type 0 where
  pub ver : ℕ
  pub varint : Bool
  pub id0_names : Bool
  pub preserve : Bool × Bool
  pub preserve_links : Bool
  pub preserve_devices : Bool
  pub preserve_hlinks : Bool
  pub entries : List FileEntry

-- fs.ModeType: the bits of a fs.FileMode that tell the type of a file.
abbrev pub mode_type : ℕ
mode_type = 2 ^ 31 + 2 ^ 27 + 2 ^ 26 + 2 ^ 25 + 2 ^ 24 + 2 ^ 21 + 2 ^ 19

unfoldable pub mode_to_wire : ℕ → ℕ
mode_to_wire mode = bit_or (bit_and mode 0x1ff) (
    if has_flag mode 31
    then 0x4000
    else if bit_and mode mode_type == 2 ^ 27
    then 0xa000
    else 0x8000)

-- "."
abbrev pub is_dot : Bytes → Bool
is_dot (a ∷ []) = a == b'.'
is_dot name = false

-- The entry that sendFileList makes of a walked one; a uint32 and the int32 of it are one word.
unfoldable pub to_wire : FileEntry → Entry
to_wire e = record empty_entry {
  name = e.name;
  mode = mode_to_wire e.mode;
  size = e.size;
  mtime = e.mod_unix;
  mod_nsec = e.mod_nanosecond;
  link_target = e.link_target;
  uid = e.uid;
  gid = e.gid;
  dev = e.dev;
  ino = e.ino;
  nlink = e.nlink;
  top_dir = is_dot e.name;
}

-- The loop over the entries, with the writer behind it.
unfoldable pub write_entries : FlistWriter → List Entry → Bytes × FlistWriter
write_entries w [] = ([], w)
write_entries w (e ∷ es) =
    let written = write_entry w e in
    let others = write_entries (written.1) es in (written.0 ++ others.0, others.1)

unfoldable pub list_writer : TransferState → FlistWriter
list_writer st = set_id0_names st.id0_names (
    set_preserve_hardlinks st.preserve_hlinks (
      set_preserve_links st.preserve_links (
        set_preserve_devices st.preserve_devices (
          set_preserve_gid (st.preserve.1)
            (set_preserve_uid (st.preserve.0) (new_flist_writer st.ver st.varint))))))

-- What sendFileList writes.
unfoldable pub send_file_list : TransferState → Bytes
send_file_list st =
    let written = write_entries (list_writer st) (map to_wire st.entries) in
    let w = written.1 in
    written.0 ++ (write_end_marker w ++ (write_id_lists w ++ write_io_error_trailer w 0))
