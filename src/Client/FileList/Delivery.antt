-- ===== src/Client/FileList/Delivery.antt =====
-- The file list from the walked entries of the sender to the entries of the client.
use go_rsyncfs.Base.{
  ℕ, ◌^◌, ◌≤◌, ◌<◌, ◌≡◌, ◌∙◌, bit_or, Bool, true, false, not, ◌&&◌, List, [], ◌++◌, Bytes, length,
  ltb, leb, if◌then◌else◌,
}
use go_rsyncfs.Io.{ok, bind}
use go_rsyncfs.Wire.Fixed.{IsU32, IsU64}
use go_rsyncfs.Flist.Entry.{
  max_path_len, is_dir, is_symlink, is_device, Entry, empty_entry, Settings,
}
use go_rsyncfs.Flist.Write.{FlistWriter, write_end_marker, write_id_lists, write_io_error_trailer}
use go_rsyncfs.Flist.Read.{is_valid_mode, is_root_name}
use go_rsyncfs.Flist.RoundTrip.{mirror}
use go_rsyncfs.Sender.FileList.{FileEntry, TransferState, mode_to_wire, is_dot, write_entries}
use go_rsyncfs.Client.FileList.{Session, read_entries, read_flist_trailer}
use go_rsyncfs.Client.FileList.Entries.{
  AreEntries, all_carried, write_entries-kept, read_entries-write_entries,
}
use go_rsyncfs.Client.FileList.Trailer.{read_flist_trailer-write}

-- A mode of the wire with the permissions `perm`.
accepted_mode : ℕ → Bool
accepted_mode mode = is_valid_mode mode && (ltb mode (2 ^ 16) && not (is_device mode))

accepted_perm : ℕ → Bool
accepted_perm perm =
    accepted_mode (bit_or perm 0x4000)
    && (accepted_mode (bit_or perm 0xa000) && accepted_mode (bit_or perm 0x8000))

-- A walked entry that the format holds.
pub record IsFile (version : ℕ) (e : FileEntry) : Type 0 where
  pub name_fits : length e.name ≤ max_path_len
  pub old_name_fits : version < 28 → length e.name < 128
  pub root_is_dir : is_root_name e.name && not (is_dir (mode_to_wire e.mode)) ≡ false
  pub size_fits : IsU64 e.size
  pub unix_fits : IsU64 e.mod_unix
  pub old_unix_fits : version < 30 → IsU32 e.mod_unix
  pub nanosecond_fits : IsU32 e.mod_nanosecond
  pub uid_fits : IsU32 e.uid
  pub gid_fits : IsU32 e.gid
  pub link_fits : length e.link_target < 2 ^ 31
  pub dev_fits : IsU64 e.dev
  pub ino_fits : IsU64 e.ino

-- The entry of the client.
unfoldable pub delivered : ℕ → FileEntry → Entry
delivered version e =
    let mode = mode_to_wire e.mode in
    record empty_entry {
      name = e.name;
      mode = mode;
      size = e.size;
      mtime = e.mod_unix;
      mod_nsec = if leb 31 version then e.mod_nanosecond else 0;
      uid = e.uid;
      gid = e.gid;
      link_target = if is_symlink mode then e.link_target else [];
      top_dir = is_dir mode && is_dot e.name;
    }

-- The settings of a session: no access times, no hard links, no checksums, all else kept.
abbrev IsPlain : Settings → Type 0
IsPlain o =
    (o.has_atimes ≡ false)
    × (o.preserve_hardlinks ≡ false)
    × (o.always_checksum ≡ false)
    × (o.preserve_uid ≡ true)
    × (o.preserve_gid ≡ true)
    × (o.preserve_devices ≡ true)
    × (o.preserve_links ≡ true)

-- The sender's state in a session with this client, which asks for owners, groups, devices and
-- links and not for hard links.
abbrev pub serving : Session → List FileEntry → TransferState
serving c files = record {
  ver = c.version;
  varint = c.varint_flist;
  id0_names = c.id0_names;
  preserve = (true, true);
  preserve_links = true;
  preserve_devices = true;
  preserve_hlinks = false;
  entries = files;
}

received :
    (w : FlistWriter) (c : Session) (es : List Entry) (fuel : ℕ) (rest : Bytes)
    → IsPlain w.settings
    → AreEntries w es
    → w.settings.version ≡ c.version
    → w.id0_names ≡ c.id0_names
    → (c.varint_flist ≡ true → 30 ≤ c.version)
    → length (write_entries w es).0 < fuel
    → bind
        (read_entries fuel (mirror w 0 0) (
          (write_entries w es).0
          ++ (write_end_marker (write_entries w es).1
              ++ (write_id_lists (write_entries w es).1
                  ++ (write_io_error_trailer (write_entries w es).1 0 ++ rest)))))
        (λ es s. bind (read_flist_trailer c s) (λ end t. ok es t))
      ≡ ok (all_carried w es) rest
received w c es fuel rest plain v same_version same_id0 negotiated h =
    let (same_settings, same_names) = write_entries-kept w es in
    let (atimes, hard, sums, uids, gids, devices, links) = plain in
    rw (
      read_entries-write_entries fuel w es 0 0 _ v h,
      read_flist_trailer-write ((write_entries w es).1) c (rw same_settings same_version)
          (same_names ∙ same_id0) rest (rw same_settings uids) (rw same_settings gids) negotiated,
    )
