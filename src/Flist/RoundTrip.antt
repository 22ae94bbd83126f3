-- ===== src/Flist/RoundTrip.antt =====
-- ReadEntry on what WriteEntry wrote.
pub mod Groups
pub mod Body
pub mod Whole
use go_rsyncfs.Base.{
  ℕ, zero, suc, ◌+◌, ◌-◌, ◌*◌, ◌%◌, ◌^◌, ◌≤◌, ◌<◌, ◌≡◌, ◌⊎◌, refl, sym, ap, ◌∙◌, Bool, true, false,
  Bool-cases, inl, inr, not, ◌&&◌, ◌||◌, List, [], ◌∷◌, ◌++◌, append_assoc, append-nil, Bytes,
  length, leb, ltb, ◌==◌, ==_iff, if◌then◌else◌, arith,
}
use go_rsyncfs.Io.{Reader, ok, bind, ◌>>=◌, return, read_full}
use go_rsyncfs.Wire.Fixed.{IsU32, IsU64}
use go_rsyncfs.Flist.Entry.{
  max_path_len, xmit_top_dir, xmit_same_mode, xmit_extended_flags, xmit_same_uid, xmit_same_gid,
  xmit_same_name, xmit_long_name, xmit_same_time, xmit_same_rdev_major, xmit_no_content_dir,
  xmit_hlinked, xmit_same_dev_pre30, xmit_user_name_follows, xmit_group_name_follows,
  xmit_rdev_minor8_pre30, xmit_hlink_first, xmit_mod_nsec, xmit_same_atime, has_flag, is_dir,
  is_reg, is_symlink, is_device, Entry, Settings, common_prefix_len,
}
use go_rsyncfs.Flist.Write.{
  FlistWriter, is_nil, hlink_marked, compute_xflags, dev_after, write_xflags, write_name,
  write_size, write_mtime, write_mod_nsec, write_mode, write_atime, write_id, write_rdev,
  write_link, sends_dev_ino, write_dev_ino, has_checksum, no_checksum, write_checksum, write_fields,
  is_abbreviated, fields_written, write_entry,
}
use go_rsyncfs.Flist.Read.{
  FlistReader, read_xflags, read_name, is_reference, read_size, read_mtime, read_mod_nsec,
  read_mode, is_valid_mode, is_root_name, check_mode, read_atime, read_id, read_rdev, read_link,
  takes_dev_ino, read_dev_ino, takes_checksum, fields_taken, read_fields, read_named, read_entry,
}
use go_rsyncfs.Flist.Xflags.{
  top_dir_flag, same_mode_flag, extended_flag, same_uid_flag, same_gid_flag, same_name_flag,
  long_name_flag, same_time_flag, no_content_dir_flag, hlinked_flag, same_dev_flag, minor8_flag,
  mod_nsec_flag, same_atime_flag, compute_xflags-lt, compute_xflags-lt-byte,
}
use go_rsyncfs.Flist.Arrival.{arrived, read_xflags-write_xflags}
use go_rsyncfs.Flist.Arrival.Kinds.{
  LongByMistake, arrived-ne-zero, arrived-same_flag, arrived-top_dir, arrived-long_name,
}
use go_rsyncfs.Flist.Name.{read_name-write_name}
use go_rsyncfs.Flist.Fields.{
  IsRdev, read_size-write_size, read_mtime-write_mtime, read_id-write_id, read_rdev-write_rdev,
  read_link-write_link, read_dev_ino-write_dev_ino, read_mod_nsec-write_mod_nsec,
  read_mode-write_mode, read_atime-write_atime, read_full-write_checksum,
}

-- The reader at the other end of a writer, with `used` entries read. No reader changes its last
-- major device number, so it is a parameter.
abbrev pub mirror : FlistWriter → ℕ → ℕ → FlistReader
mirror w used rdev_major = record {
  settings = w.settings;
  used = used;
  last_mode = w.last_mode;
  last_uid = w.last_uid;
  last_gid = w.last_gid;
  last_mtime = w.last_mtime;
  last_atime = w.last_atime;
  last_rdev_major = rdev_major;
  last_name = w.last_name;
}

-- The fields of an entry that a list with these settings carries. The others are empty.
unfoldable pub carried : FlistWriter → Entry → Entry
carried w e =
    let o = w.settings in
    let device = o.preserve_devices && is_device e.mode in
    let linked = sends_dev_ino o e.mode (hlink_marked o e) in
    record {
      name = e.name;
      mode = e.mode;
      size = e.size;
      mtime = e.mtime;
      mod_nsec = if leb 31 o.version then e.mod_nsec else 0;
      atime = if o.has_atimes && not (is_dir e.mode) then e.atime else 0;
      uid = if o.preserve_uid then e.uid else 0;
      gid = if o.preserve_gid then e.gid else 0;
      user_name = [];
      group_name = [];
      rdev_major = if device then e.rdev_major else 0;
      rdev_minor = if device then e.rdev_minor else 0;
      link_target = if o.preserve_links && is_symlink e.mode then e.link_target else [];
      hlink_ndx = 0;
      nlink = 0;
      dev = if linked then e.dev else 0;
      ino = if linked then e.ino else 0;
      checksum =
          if has_checksum o e.mode
          then (if is_nil e.checksum then no_checksum else e.checksum)
          else [];
      top_dir = is_dir e.mode && e.top_dir;
      no_content_dir = is_dir e.mode && (leb 30 o.version && e.no_content_dir);
    }

-- The entries that come through: numbers of their width, a name within the limit, a mode that the
-- reader accepts, a checksum of 16 bytes or none. Four kinds of entry do not, and are left out: from
-- version 26 on a hard link whose device is that of the entry before and not 0; below version 28,
-- without varint flags, all entries of a list with access times; and there a directory whose flags
-- are all clear, with a suffix of 128 bytes or more. With the old encoding of hard links, the
-- device and the inode have 32 bits.
pub record IsEntry (w : FlistWriter) (e : Entry) : Type 0 where
  pub name_fits : length e.name ≤ max_path_len
  pub valid_mode : is_valid_mode e.mode ≡ true
  pub root_is_dir : is_root_name e.name && not (is_dir e.mode) ≡ false
  pub mode_fits : IsU32 e.mode
  pub size_fits : IsU64 e.size
  pub mtime_fits : IsU64 e.mtime
  pub old_mtime_fits : w.settings.version < 30 → IsU32 e.mtime
  pub mod_nsec_fits : IsU32 e.mod_nsec
  pub atime_fits : IsU64 e.atime
  pub uid_fits : IsU32 e.uid
  pub gid_fits : IsU32 e.gid
  pub rdev_fits : IsRdev w.settings.version e.rdev_major e.rdev_minor
  pub link_fits : length e.link_target < 2 ^ 31
  pub dev_fits : IsU64 e.dev
  pub ino_fits : IsU64 e.ino
  pub old_link_fits :
      sends_dev_ino w.settings e.mode (hlink_marked w.settings e) ≡ true
      → w.settings.version < 26
      → IsU32 e.dev × IsU32 e.ino
  pub fresh_device :
      sends_dev_ino w.settings e.mode (hlink_marked w.settings e) ≡ true
      → 26 ≤ w.settings.version
      → e.dev ≡ w.last_dev
      → e.dev ≡ 0
  pub checksum_fits : (length e.checksum ≡ 0) ⊎ (length e.checksum ≡ 16)
  pub old_atimes :
      w.settings.version < 28
      → w.settings.varint_flist_flags ≡ false
      → w.settings.has_atimes ≡ false
  pub old_dir_name :
      LongByMistake (compute_xflags w e) e.mode w.settings.version w.settings.varint_flist_flags
      → length e.name - common_prefix_len w.last_name e.name < 128
