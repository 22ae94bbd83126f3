-- ===== src/Flist/RoundTrip/Groups.antt =====
-- The groups of fields that are sent on a condition, and the guards on the mode.
use go_rsyncfs.Base.{
  ℕ, ◌≡◌, Bool, true, false, Bool-cases, inl, inr, ◌&&◌, ◌||◌, [], ◌++◌, Bytes, leb, ltb,
  if◌then◌else◌, arith,
}
use go_rsyncfs.Io.{ok, return, read_full}
use go_rsyncfs.Flist.Entry.{is_dir, is_reg, is_symlink, is_device, Entry}
use go_rsyncfs.Flist.Write.{
  FlistWriter, is_nil, hlink_marked, write_rdev, write_link, sends_dev_ino, write_dev_ino,
  has_checksum, no_checksum, write_checksum,
}
use go_rsyncfs.Flist.Read.{
  check_mode, read_rdev, read_link, takes_dev_ino, read_dev_ino, takes_checksum,
}
use go_rsyncfs.Flist.Fields.{
  read_rdev-write_rdev, read_link-write_link, read_dev_ino-write_dev_ino, read_full-write_checksum,
}
use go_rsyncfs.Flist.RoundTrip.{IsEntry}

module _ (w : FlistWriter) (e : Entry) (v : IsEntry w e) (rest : Bytes) where
  pub mode_accepted : check_mode e.name e.mode rest ≡ ok e.mode rest
  unfolding check_mode
  mode_accepted = rw (v.valid_mode, v.root_is_dir)

  device_not_dir : is_device e.mode ≡ true → is_dir e.mode ≡ false
  unfolding is_device is_dir
  device_not_dir h = ground arith

  pub rdev_group :
      (bare : Bool) (last : ℕ)
      → (if w.settings.preserve_devices && is_device e.mode
            then read_rdev w.settings.version (is_dir e.mode && bare) false last
            else return (0, 0))
          ((if w.settings.preserve_devices && is_device e.mode
              then write_rdev w.settings.version
                  (is_dir e.mode && bare)
                  false
                  e.rdev_major
                  e.rdev_minor
              else [])
            ++ rest)
        ≡ ok
            (
              (if w.settings.preserve_devices && is_device e.mode then e.rdev_major else 0),
              (if w.settings.preserve_devices && is_device e.mode then e.rdev_minor else 0),
            )
            rest
  rdev_group bare last = elim (Bool-cases (w.settings.preserve_devices && is_device e.mode)) [
    | inl sent ↦
        let other = device_not_dir (both w.settings.preserve_devices (is_device e.mode) sent) in
        rw (sent, other)
          (read_rdev-write_rdev w.settings.version rest last e.rdev_major e.rdev_minor v.rdev_fits)
    | inr absent ↦ rw absent
  ]
    where
      both : (a b : Bool) → a && b ≡ true → b ≡ true
      both a b h = ground arith

  pub link_group :
      (if w.settings.preserve_links && is_symlink e.mode
          then read_link w.settings.version
          else return [])
        ((if w.settings.preserve_links && is_symlink e.mode
            then write_link w.settings.version e.link_target
            else [])
          ++ rest)
      ≡ ok (if w.settings.preserve_links && is_symlink e.mode then e.link_target else []) rest
  link_group = elim (Bool-cases (w.settings.preserve_links && is_symlink e.mode)) [
    | inl sent ↦ rw sent (read_link-write_link w.settings.version rest e.link_target v.link_fits)
    | inr absent ↦ rw absent
  ]

  -- The reader tests for hard links where the writer's flag has done so.
  takes-sends :
      takes_dev_ino w.settings e.mode (hlink_marked w.settings e)
      ≡ sends_dev_ino w.settings e.mode (hlink_marked w.settings e)
  unfolding takes_dev_ino sends_dev_ino hlink_marked
  takes-sends = ground arith

  pub dev_ino_group :
      (same : Bool)
      → (if takes_dev_ino w.settings e.mode (hlink_marked w.settings e)
            then read_dev_ino w.settings.version same
            else return (0, 0))
          ((if sends_dev_ino w.settings e.mode (hlink_marked w.settings e)
              then write_dev_ino w.settings.version same e.dev e.ino
              else [])
            ++ rest)
        ≡ ok
            (
              (if sends_dev_ino w.settings e.mode (hlink_marked w.settings e)
                  then (if leb 26 w.settings.version && same then 0 else e.dev)
                  else 0),
              (if sends_dev_ino w.settings e.mode (hlink_marked w.settings e) then e.ino else 0),
            )
            rest
  dev_ino_group same =
      elim (Bool-cases (sends_dev_ino w.settings e.mode (hlink_marked w.settings e))) [
        | inl sent ↦
            rw (takes-sends, sent)
              (read_dev_ino-write_dev_ino w.settings.version rest same e.dev e.ino v.dev_fits
                v.ino_fits (v.old_link_fits sent))
        | inr absent ↦ rw (takes-sends, absent)
      ]

  pub checksum_group :
      (if takes_checksum w.settings e.mode then read_full 16 else return [])
        ((if has_checksum w.settings e.mode then write_checksum e.checksum else []) ++ rest)
      ≡ ok
          (if has_checksum w.settings e.mode
            then (if is_nil e.checksum then no_checksum else e.checksum)
            else [])
          rest
  unfolding takes_checksum has_checksum
  checksum_group =
      elim (Bool-cases
        (w.settings.always_checksum && (is_reg e.mode || ltb w.settings.version 28))) [
          | inl sent ↦ rw sent (read_full-write_checksum rest e.checksum v.checksum_fits)
          | inr absent ↦ rw absent
        ]
