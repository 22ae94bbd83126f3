-- ===== src/Flist/Write.antt =====
-- The FlistWriter of protocol/flist.go over an io.Writer that takes every write. Each group of
-- fields of WriteEntry is a function that gives the bytes written.
pub mod Setters
use go_rsyncfs.Base.{
  ℕ, ◌-◌, ◌*◌, ◌%◌, ◌^◌, bit_and, bit_or, Bool, true, false, not, ◌&&◌, ◌||◌, [], ◌∷◌, ◌++◌, Bytes,
  length, drop, leb, ltb, ◌==◌, if◌then◌else◌,
}
use go_rsyncfs.Wire.Fixed.{write_int32, write_uint32, write_uint16, write_longint}
use go_rsyncfs.Wire.Var.{write_varint, write_varlong}
use go_rsyncfs.Flist.Entry.{
  xmit_top_dir, xmit_same_mode, xmit_extended_flags, xmit_same_uid, xmit_same_gid, xmit_same_name,
  xmit_long_name, xmit_same_time, xmit_same_rdev_major, xmit_no_content_dir, xmit_hlinked,
  xmit_same_dev_pre30, xmit_user_name_follows, xmit_group_name_follows, xmit_rdev_minor8_pre30,
  xmit_hlink_first, xmit_mod_nsec, xmit_same_atime, has_flag, set_if, is_dir, is_reg, is_symlink,
  is_device, Entry, Settings, new_settings, common_prefix_len,
}

pub record FlistWriter : Type 0 where
  pub settings : Settings
  pub id0_names : Bool
  pub last_mode : ℕ
  pub last_uid : ℕ
  pub last_gid : ℕ
  pub last_mtime : ℕ
  pub last_atime : ℕ
  pub last_rdev_major : ℕ
  pub last_dev : ℕ
  pub last_name : Bytes

abbrev pub new_flist_writer : ℕ → Bool → FlistWriter
new_flist_writer version varint_flist_flags = record {
  settings = new_settings version varint_flist_flags;
  id0_names = false;
  last_mode = 0;
  last_uid = 0;
  last_gid = 0;
  last_mtime = 0;
  last_atime = 0;
  last_rdev_major = 0;
  last_dev = 0;
  last_name = [];
}

abbrev pub is_nil : Bytes → Bool
is_nil [] = true
is_nil (b ∷ s) = false

-- An entry of a file with several links, in the versions that mark it.
unfoldable pub hlink_marked : Settings → Entry → Bool
hlink_marked o e =
    leb 28 o.version
    && ltb o.version 30
    && o.preserve_hardlinks
    && not (is_dir e.mode)
    && ltb 1 e.nlink

-- computeXflags in the order of its statements. `Nlink > 1` is on an int64 that is not negative.
unfoldable pub compute_xflags : FlistWriter → Entry → ℕ
unfolding hlink_marked
compute_xflags w e =
    let o = w.settings in
    let bare = leb 30 o.version && e.no_content_dir in
    let l1 = common_prefix_len w.last_name e.name in
    let l2 = length e.name - l1 in
    let x = set_if (is_dir e.mode && bare) xmit_no_content_dir 0 in
    let x = set_if (is_dir e.mode && e.top_dir) xmit_top_dir x in
    let x = set_if (e.mode == w.last_mode) xmit_same_mode x in
    let x =
      set_if (not o.preserve_uid || (not (is_nil w.last_name) && e.uid == w.last_uid)) xmit_same_uid
        x in
    let x =
      set_if (not o.preserve_gid || (not (is_nil w.last_name) && e.gid == w.last_gid)) xmit_same_gid
        x in
    let x = set_if (e.mtime == w.last_mtime) xmit_same_time x in
    let x = set_if (ltb 0 l1) xmit_same_name x in
    let x = set_if (ltb 255 l2) xmit_long_name x in
    let x = set_if (leb 31 o.version && not (e.mod_nsec == 0)) xmit_mod_nsec x in
    let x =
      set_if (o.has_atimes && not (is_dir e.mode) && e.atime == w.last_atime) xmit_same_atime x in
    let x = set_if (hlink_marked o e && e.dev == w.last_dev) xmit_same_dev_pre30 x in
    set_if (hlink_marked o e) xmit_hlinked x

-- The device that computeXflags leaves in `w.lastDev`.
unfoldable pub dev_after : FlistWriter → Entry → ℕ
unfolding hlink_marked
dev_after w e = if hlink_marked w.settings e && not (e.dev == w.last_dev) then e.dev else w.last_dev

-- writeXflags, by its three encodings.
unfoldable pub write_xflags : ℕ → ℕ → ℕ → Bool → Bytes
write_xflags xflags mode version varint_flist_flags =
    if varint_flist_flags
    then write_varint (if xflags == 0 then 2 ^ xmit_extended_flags else xflags)
    else if leb 28 version
    then (let x = set_if (xflags == 0 && not (is_dir mode)) xmit_top_dir xflags in
        if not (bit_and x 0xff00 == 0) || x == 0
        then write_uint16 (bit_or x (2 ^ xmit_extended_flags) % 2 ^ 16)
        else (x % 256) ∷ [])
    else let x =
        if xflags == 0
        then (if is_dir mode then 2 ^ xmit_long_name else 2 ^ xmit_top_dir)
        else xflags in
      (x % 256) ∷ []

-- The name behind its common prefix of `l1` bytes.
unfoldable pub write_name : Bool → Bool → ℕ → Bytes → Bytes
write_name same_name long_name l1 name =
    (if same_name then (l1 % 256) ∷ [] else [])
    ++ ((if long_name
          then write_varint ((length name - l1) % 2 ^ 32)
          else ((length name - l1) % 256) ∷ [])
        ++ drop l1 name)

unfoldable pub write_size : ℕ → ℕ → Bytes
write_size version size = if ltb version 30 then write_longint size else write_varlong size 3

unfoldable pub write_mtime : ℕ → Bool → ℕ → Bytes
write_mtime version same_time mtime =
    if same_time
    then []
    else if leb 30 version
    then write_varlong mtime 4
    else write_uint32 (mtime % 2 ^ 32)

unfoldable pub write_mod_nsec : Bool → ℕ → Bytes
write_mod_nsec sent mod_nsec = if sent then write_varint mod_nsec else []

unfoldable pub write_mode : Bool → ℕ → Bytes
write_mode same_mode mode = if same_mode then [] else write_uint32 mode

unfoldable pub write_atime : Bool → ℕ → Bool → ℕ → Bytes
write_atime has_atimes mode same_atime atime =
    if has_atimes && not (is_dir mode) && not same_atime then write_varlong atime 4 else []

-- The uid with the user name, and the gid with the group name.
unfoldable pub write_id : ℕ → Bool → Bool → Bool → ℕ → Bytes → Bytes
write_id version preserve same_id name_follows id name =
    if preserve && not same_id
    then if leb 30 version
      then write_varint id ++ (if name_follows then (length name % 256) ∷ name else [])
      else write_uint32 id
    else []

unfoldable pub pack_rdev : ℕ → ℕ → ℕ
pack_rdev major minor = bit_or (major * 2 ^ 8 % 2 ^ 32) (bit_and minor 0xff)

unfoldable pub write_rdev : ℕ → Bool → Bool → ℕ → ℕ → Bytes
unfolding pack_rdev
write_rdev version same_major minor8 major minor =
    if ltb version 28
    then (if same_major then [] else write_uint32 (pack_rdev major minor))
    else if ltb version 30
    then (if same_major then [] else write_uint32 major)
      ++ (if minor8 then (minor % 256) ∷ [] else write_uint32 minor)
    else (if same_major then [] else write_varint major) ++ write_varint minor

unfoldable pub write_link : ℕ → Bytes → Bytes
write_link version target =
    (if ltb version 30
      then write_int32 (length target % 2 ^ 32)
      else write_varint (length target % 2 ^ 32))
    ++ target

-- Whether the pair of device and inode is sent, by version and by the flag.
unfoldable pub sends_dev_ino : Settings → ℕ → Bool → Bool
sends_dev_ino o mode hlinked =
    ltb o.version 30
    && ((ltb o.version 28 && o.preserve_hardlinks && is_reg mode) || (leb 28 o.version && hlinked))

unfoldable pub write_dev_ino : ℕ → Bool → ℕ → ℕ → Bytes
write_dev_ino version same_dev dev ino =
    if ltb version 26
    then write_uint32 (dev % 2 ^ 32) ++ write_uint32 (ino % 2 ^ 32)
    else (if same_dev then [] else write_longint dev) ++ write_longint ino

unfoldable pub has_checksum : Settings → ℕ → Bool
has_checksum o mode = o.always_checksum && (is_reg mode || ltb o.version 28)

abbrev pub no_checksum : Bytes
no_checksum = 0 ∷ 0 ∷ 0 ∷ 0 ∷ 0 ∷ 0 ∷ 0 ∷ 0 ∷ 0 ∷ 0 ∷ 0 ∷ 0 ∷ 0 ∷ 0 ∷ 0 ∷ 0 ∷ []

unfoldable pub write_checksum : Bytes → Bytes
write_checksum sum = if is_nil sum then no_checksum else sum

-- The fields that follow the name of an entry that is not abbreviated.
unfoldable pub write_fields : Settings → ℕ → Entry → Bytes
write_fields o x e =
    write_size o.version e.size
    ++ (write_mtime o.version (has_flag x xmit_same_time) e.mtime
        ++ (write_mod_nsec (has_flag x xmit_mod_nsec) e.mod_nsec
            ++ (write_mode (has_flag x xmit_same_mode) e.mode
                ++ (write_atime o.has_atimes e.mode (has_flag x xmit_same_atime) e.atime
                    ++ (write_id o.version o.preserve_uid (has_flag x xmit_same_uid)
                          (has_flag x xmit_user_name_follows) e.uid e.user_name
                        ++ (write_id o.version o.preserve_gid (has_flag x xmit_same_gid)
                              (has_flag x xmit_group_name_follows) e.gid e.group_name
                            ++ ((if o.preserve_devices && is_device e.mode
                                  then write_rdev o.version (has_flag x xmit_same_rdev_major)
                                      (has_flag x xmit_rdev_minor8_pre30) e.rdev_major e.rdev_minor
                                  else [])
                                ++ ((if o.preserve_links && is_symlink e.mode
                                      then write_link o.version e.link_target
                                      else [])
                                    ++ ((if sends_dev_ino o e.mode (has_flag x xmit_hlinked)
                                          then write_dev_ino o.version
                                              (has_flag x xmit_same_dev_pre30) e.dev e.ino
                                          else [])
                                        ++ (if has_checksum o e.mode
                                            then write_checksum e.checksum
                                            else []))))))))))

-- The abbreviated form: a name and the index of the first entry of a group of hard links.
unfoldable pub is_abbreviated : ℕ → ℕ → Bool
is_abbreviated version x =
    leb 30 version && has_flag x xmit_hlinked && not (has_flag x xmit_hlink_first)

-- The writer behind the fields: a value is kept where it was written.
unfoldable pub fields_written : FlistWriter → ℕ → Entry → FlistWriter
fields_written w x e =
    let o = w.settings in
    record w {
      last_mtime = if has_flag x xmit_same_time then w.last_mtime else e.mtime;
      last_mode = if has_flag x xmit_same_mode then w.last_mode else e.mode;
      last_atime =
          if o.has_atimes && not (is_dir e.mode) && not (has_flag x xmit_same_atime)
          then e.atime
          else w.last_atime;
      last_uid = if o.preserve_uid && not (has_flag x xmit_same_uid) then e.uid else w.last_uid;
      last_gid = if o.preserve_gid && not (has_flag x xmit_same_gid) then e.gid else w.last_gid;
      last_rdev_major =
          if o.preserve_devices
            && is_device e.mode
            && leb 28 o.version
            && not (has_flag x xmit_same_rdev_major)
          then e.rdev_major
          else w.last_rdev_major;
    }

-- WriteEntry. `HlinkNdx >= 0` is on an int32.
unfoldable pub write_entry : FlistWriter → Entry → Bytes × FlistWriter
unfolding is_abbreviated
write_entry w e =
    let o = w.settings in
    let x = compute_xflags w e in
    let l1 = common_prefix_len w.last_name e.name in
    let head =
      write_xflags x e.mode o.version o.varint_flist_flags
      ++ write_name (has_flag x xmit_same_name) (has_flag x xmit_long_name) l1 e.name in
    let w' = record w { last_dev = dev_after w e; last_name = e.name } in
    if is_abbreviated o.version x && ltb e.hlink_ndx (2 ^ 31)
    then (head ++ write_varint e.hlink_ndx, w')
    else (head ++ write_fields o x e, fields_written w' x e)

-- WriteEndMarker, WriteIDLists and WriteIOErrorTrailer, which end a list.
unfoldable pub write_end_marker : FlistWriter → Bytes
write_end_marker w =
    if w.settings.varint_flist_flags then write_varint 0 ++ write_varint 0 else 0 ∷ []

unfoldable pub write_id_list : FlistWriter → Bool → Bytes
write_id_list w preserve =
    if not preserve
    then []
    else (if leb 30 w.settings.version then write_varint 0 else write_int32 0)
      ++ (if w.id0_names then 0 ∷ [] else [])

unfoldable pub write_id_lists : FlistWriter → Bytes
write_id_lists w =
    write_id_list w w.settings.preserve_uid ++ write_id_list w w.settings.preserve_gid

unfoldable pub write_io_error_trailer : FlistWriter → ℕ → Bytes
write_io_error_trailer w io_error =
    if leb 30 w.settings.version then [] else write_int32 (io_error % 2 ^ 32)
