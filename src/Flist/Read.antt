-- ===== src/Flist/Read.antt =====
-- The FlistReader of protocol/flist.go. Each group of fields of ReadEntry is a reader of its own.
pub mod Setters
use go_rsyncfs.Base.{
  ℕ, ◌+◌, ◌*◌, ◌/◌, ◌^◌, bit_and, bit_or, Bool, false, not, ◌&&◌, ◌||◌, [], ◌∷◌, ◌++◌, Bytes,
  length, take, leb, ltb, ◌==◌, if◌then◌else◌,
}
use go_rsyncfs.Io.{
  Error, Result, ok, err, Reader, ◌>>=◌, return, fail, eof, panic, name_overflow,
  hlink_out_of_range, invalid_mode, root_not_dir, read_full, read_byte,
}
use go_rsyncfs.Wire.Fixed.{is_neg32, read_int32, read_uint32, read_longint}
use go_rsyncfs.Wire.Var.{read_varint, read_varlong}
use go_rsyncfs.Flist.Entry.{
  max_path_len, xmit_top_dir, xmit_same_mode, xmit_extended_flags, xmit_same_uid, xmit_same_gid,
  xmit_same_name, xmit_long_name, xmit_same_time, xmit_same_rdev_major, xmit_no_content_dir,
  xmit_hlinked, xmit_same_dev_pre30, xmit_user_name_follows, xmit_group_name_follows,
  xmit_rdev_minor8_pre30, xmit_hlink_first, xmit_mod_nsec, xmit_same_atime, has_flag, file_type,
  is_dir, is_reg, is_symlink, is_device, Entry, empty_entry, Settings, new_settings,
}

-- `incRecurse` and `lastDir` are never read, so they have no field.
pub record FlistReader : Type 0 where
  pub settings : Settings
  pub used : ℕ
  pub last_mode : ℕ
  pub last_uid : ℕ
  pub last_gid : ℕ
  pub last_mtime : ℕ
  pub last_atime : ℕ
  pub last_rdev_major : ℕ
  pub last_name : Bytes

abbrev pub new_flist_reader : ℕ → Bool → FlistReader
new_flist_reader version varint_flist_flags = record {
  settings = new_settings version varint_flist_flags;
  used = 0;
  last_mode = 0;
  last_uid = 0;
  last_gid = 0;
  last_mtime = 0;
  last_atime = 0;
  last_rdev_major = 0;
  last_name = [];
}

unfoldable pub read_xflags : ℕ → Bool → Reader ℕ
read_xflags version varint_flist_flags = if varint_flist_flags then read_varint else (do
  b ← read_byte
  if b == 0
      then return 0
      else if leb 28 version && has_flag b xmit_extended_flags
      then (do high ← read_byte; return (bit_or b (high * 2 ^ 8)))
      else return b)

-- What is left of the name: a prefix of the last one, by the length that came, and the suffix.
unfoldable pub join_name : Bytes → ℕ → Bytes → Reader Bytes
join_name last l1 suffix =
    if ltb (length last) l1 then fail panic else return (take l1 last ++ suffix)

-- `l2 < 0` is on an int32.
unfoldable pub read_suffix : ℕ → ℕ → Reader Bytes
read_suffix l1 l2 =
    if is_neg32 l2 || ltb max_path_len (l1 + l2) then fail name_overflow else read_full l2

unfoldable pub read_name : Bytes → Bool → Bool → Reader Bytes
unfolding read_suffix join_name
read_name last same_name long_name = do
  l1 ← (if same_name then read_byte else return 0)
  l2 ← (if long_name then read_varint else read_byte)
  suffix ← read_suffix l1 l2
  join_name last l1 suffix

-- The index of an abbreviated entry, within the entries so far.
unfoldable pub read_hlink_ndx : ℕ → Reader ℕ
read_hlink_ndx used = do
  ndx ← read_varint
  if is_neg32 ndx || leb (used + 1) ndx
      then fail hlink_out_of_range
      else if ltb ndx 1
      then fail hlink_out_of_range
      else return ndx

unfoldable pub is_reference : Settings → ℕ → Bool
is_reference o x =
    leb 30 o.version
    && o.preserve_hardlinks
    && has_flag x xmit_hlinked
    && not (has_flag x xmit_hlink_first)

unfoldable pub read_size : ℕ → Reader ℕ
read_size version = if ltb version 30 then read_longint else read_varlong 3

unfoldable pub read_mtime : ℕ → Bool → ℕ → Reader ℕ
read_mtime version same_time last =
    if same_time then return last else if leb 30 version then read_varlong 4 else read_uint32

unfoldable pub read_mod_nsec : Bool → Reader ℕ
read_mod_nsec sent = if sent then read_varint else return 0

unfoldable pub read_mode : Bool → ℕ → Reader ℕ
read_mode same_mode last = if same_mode then return last else read_uint32

-- The seven file types, or no mode at all.
unfoldable pub is_valid_mode : ℕ → Bool
is_valid_mode mode =
    mode == 0
    || file_type mode == 0x8000
    || file_type mode == 0x4000
    || file_type mode == 0xa000
    || file_type mode == 0x2000
    || file_type mode == 0x6000
    || file_type mode == 0x1000
    || file_type mode == 0xc000

-- "." and "/."
unfoldable pub is_root_name : Bytes → Bool
is_root_name (a ∷ []) = a == b'.'
is_root_name (a ∷ b ∷ []) = a == b'/' && b == b'.'
is_root_name name = false

-- The guards on the mode, which returns it.
unfoldable pub check_mode : Bytes → ℕ → Reader ℕ
check_mode name mode =
    if not (is_valid_mode mode)
    then fail invalid_mode
    else if is_root_name name && not (is_dir mode)
    then fail root_not_dir
    else return mode

unfoldable pub read_atime : Bool → ℕ → Bool → ℕ → Reader ℕ
read_atime has_atimes mode same_atime last =
    if has_atimes && not (is_dir mode)
    then (if not same_atime then read_varlong 4 else return last)
    else return 0

unfoldable pub read_short_name : Reader Bytes
read_short_name = do n ← read_byte; read_full n

-- The uid with the user name, and the gid with the group name.
unfoldable pub read_id : ℕ → Bool → Bool → Bool → ℕ → Reader (ℕ × Bytes)
unfolding read_short_name
read_id version preserve same_id name_follows last =
    if preserve
    then (if not same_id
        then (if leb 30 version
            then (do
              id ← read_varint
              name ← (if name_follows then read_short_name else return [])
              return (id, name))
            else (do id ← read_uint32; return (id, [])))
        else return (last, []))
    else return (0, [])

unfoldable pub read_rdev : ℕ → Bool → Bool → ℕ → Reader (ℕ × ℕ)
read_rdev version same_major minor8 last =
    if ltb version 28
    then (if same_major
        then return (0, 0)
        else (do v ← read_uint32; return (v / 2 ^ 8, bit_and v 0xff)))
    else if ltb version 30
    then (do
      major ← (if same_major then return last else read_uint32)
      minor ← (if minor8 then read_byte else read_uint32)
      return (major, minor))
    else (do
      major ← (if same_major then return last else read_varint)
      minor ← read_varint
      return (major, minor))

-- The target by its length, an int32.
unfoldable pub read_target : ℕ → Reader Bytes
read_target len = if is_neg32 len || len == 0 then return [] else read_full len

unfoldable pub read_link : ℕ → Reader Bytes
unfolding read_target
read_link version = do len ← (if ltb version 30 then read_int32 else read_varint); read_target len

unfoldable pub takes_dev_ino : Settings → ℕ → Bool → Bool
takes_dev_ino o mode hlinked =
    ltb o.version 30
    && o.preserve_hardlinks
    && ((ltb o.version 28 && is_reg mode) || (leb 28 o.version && hlinked))

unfoldable pub read_dev_ino : ℕ → Bool → Reader (ℕ × ℕ)
read_dev_ino version same_dev =
    if ltb version 26 then (do dev ← read_uint32; ino ← read_uint32; return (dev, ino)) else (do
      dev ← (if same_dev then return 0 else read_longint)
      ino ← read_longint
      return (dev, ino))

unfoldable pub takes_checksum : Settings → ℕ → Bool
takes_checksum o mode = o.always_checksum && (is_reg mode || ltb o.version 28)

-- The reader behind the fields.
unfoldable pub fields_taken : FlistReader → ℕ → ℕ → ℕ → ℕ → ℕ → FlistReader
fields_taken r mtime mode atime uid gid =
    let o = r.settings in
    record r {
      used = r.used + 1;
      last_mtime = mtime;
      last_mode = mode;
      last_atime = if o.has_atimes && not (is_dir mode) then atime else r.last_atime;
      last_uid = if o.preserve_uid then uid else r.last_uid;
      last_gid = if o.preserve_gid then gid else r.last_gid;
    }

-- The fields that follow the name of an entry that is not abbreviated.
unfoldable pub read_fields : FlistReader → ℕ → Bytes → Reader (Entry × FlistReader)
read_fields r x name = do
  size ← read_size r.settings.version
  mtime ← read_mtime r.settings.version (has_flag x xmit_same_time) r.last_mtime
  mod_nsec ← read_mod_nsec (has_flag x xmit_mod_nsec)
  sent_mode ← read_mode (has_flag x xmit_same_mode) r.last_mode
  mode ← check_mode name sent_mode
  atime ← read_atime r.settings.has_atimes mode (has_flag x xmit_same_atime) r.last_atime
  (uid, user_name) ←
      read_id r.settings.version r.settings.preserve_uid (has_flag x xmit_same_uid)
        (has_flag x xmit_user_name_follows) r.last_uid
  (gid, group_name) ←
      read_id r.settings.version r.settings.preserve_gid (has_flag x xmit_same_gid)
        (has_flag x xmit_group_name_follows) r.last_gid
  (major, minor) ←
      (if r.settings.preserve_devices && is_device mode
        then read_rdev r.settings.version (has_flag x xmit_same_rdev_major)
            (has_flag x xmit_rdev_minor8_pre30) r.last_rdev_major
        else return (0, 0))
  link_target ←
      (if r.settings.preserve_links && is_symlink mode
        then read_link r.settings.version
        else return [])
  (dev, ino) ←
      (if takes_dev_ino r.settings mode (has_flag x xmit_hlinked)
        then read_dev_ino r.settings.version (has_flag x xmit_same_dev_pre30)
        else return (0, 0))
  checksum ← (if takes_checksum r.settings mode then read_full 16 else return [])
  return (
    record {
      name = name;
      mode = mode;
      size = size;
      mtime = mtime;
      mod_nsec = mod_nsec;
      atime = atime;
      uid = uid;
      gid = gid;
      user_name = user_name;
      group_name = group_name;
      rdev_major = major;
      rdev_minor = minor;
      link_target = link_target;
      hlink_ndx = 0;
      nlink = 0;
      dev = dev;
      ino = ino;
      checksum = checksum;
      top_dir = is_dir mode && has_flag x xmit_top_dir;
      no_content_dir = is_dir mode && has_flag x xmit_no_content_dir;
    },
    fields_taken r mtime mode atime uid gid,
  )

-- Behind the end marker: a varint, whose error is dropped; its panic is not.
unfoldable pub end_error : Error → Error
end_error panic = panic
end_error e = eof

unfoldable pub end_of_list : Result ℕ → Result (Entry × FlistReader)
unfolding end_error
end_of_list (ok v s) = err eof s
end_of_list (err e s) = err (end_error e) s

unfoldable pub read_end : Bool → Reader (Entry × FlistReader)
unfolding end_of_list
read_end varint_flist_flags s =
    if varint_flist_flags then end_of_list (read_varint s) else err eof s

unfoldable pub read_named : FlistReader → ℕ → Bytes → Reader (Entry × FlistReader)
unfolding is_reference
read_named r x name =
    if is_reference r.settings x
    then (do
      ndx ← read_hlink_ndx r.used
      return (record empty_entry { name = name; hlink_ndx = ndx }, record r { used = r.used + 1 }))
    else read_fields r x name

-- ReadEntry; the end of the list is io.EOF.
unfoldable pub read_entry : FlistReader → Reader (Entry × FlistReader)
unfolding read_end read_named
read_entry r = do
  x ← read_xflags r.settings.version r.settings.varint_flist_flags
  if x == 0 then read_end r.settings.varint_flist_flags else (do
    name ← read_name r.last_name (has_flag x xmit_same_name) (has_flag x xmit_long_name)
    read_named (record r { last_name = name }) x name)
