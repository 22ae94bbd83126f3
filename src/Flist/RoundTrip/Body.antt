-- ===== src/Flist/RoundTrip/Body.antt =====
-- The fields behind the name, and a whole entry.
use go_rsyncfs.Base.{
  ℕ, ◌+◌, ◌≡◌, refl, ap, ◌∙◌, Bool, true, false, Bool-cases, inl, inr, not, ◌&&◌, ◌||◌, [], ◌∷◌,
  ◌++◌, append_assoc, Bytes, leb, ◌==◌, if◌then◌else◌, arith,
}
use go_rsyncfs.Io.{ok}
use go_rsyncfs.Flist.Entry.{
  xmit_top_dir, xmit_same_mode, xmit_extended_flags, xmit_same_uid, xmit_same_gid, xmit_same_name,
  xmit_long_name, xmit_same_time, xmit_same_rdev_major, xmit_hlinked, xmit_user_name_follows,
  xmit_group_name_follows, xmit_hlink_first, xmit_mod_nsec, xmit_same_atime, has_flag, is_dir,
  Entry, common_prefix_len,
}
use go_rsyncfs.Flist.Write.{
  sends_dev_ino, FlistWriter, is_nil, hlink_marked, compute_xflags, dev_after, write_xflags,
  write_name, write_fields, is_abbreviated, fields_written, write_entry,
}
use go_rsyncfs.Flist.Read.{is_reference, fields_taken, read_fields}
use go_rsyncfs.Flist.Xflags.{
  top_dir_flag, same_mode_flag, same_uid_flag, same_gid_flag, same_time_flag, no_content_dir_flag,
  hlinked_flag, same_dev_flag, minor8_flag, mod_nsec_flag, same_atime_flag,
}
use go_rsyncfs.Flist.Arrival.{arrived}
use go_rsyncfs.Flist.Arrival.Kinds.{arrived-same_flag, arrived-top_dir}
use go_rsyncfs.Flist.Fields.{
  read_size-write_size, read_mtime-write_mtime, read_id-write_id, read_mod_nsec-write_mod_nsec,
  read_mode-write_mode, read_atime-write_atime,
}
use go_rsyncfs.Flist.RoundTrip.{mirror, carried, IsEntry}
use go_rsyncfs.Flist.RoundTrip.Groups.{
  mode_accepted, rdev_group, link_group, dev_ino_group, checksum_group,
}

and_twice : (a b : Bool) → a && (a && b) ≡ a && b
and_twice true b = refl
and_twice false b = refl

-- When the uid or the gid goes out as that of the entry before.
abbrev same_id : Bool → Bytes → ℕ → ℕ → Bool
same_id preserve last_name id last = not preserve || (not (is_nil last_name) && id == last)

same_id-eq :
    (preserve : Bool) (last_name : Bytes) (id last : ℕ)
    → preserve && same_id preserve last_name id last ≡ true
    → id ≡ last
same_id-eq true [] id last h = cc
same_id-eq true (b ∷ s) id last h = ground arith
same_id-eq false last_name id last h = cc

module _ (w : FlistWriter) (e : Entry) where
  abbrev pub sent : ℕ
  sent = compute_xflags w e

  abbrev pub came : ℕ
  came = arrived sent e.mode w.settings.version w.settings.varint_flist_flags

  -- A flag arrives as it was set, with its value.
  pub arrives :
      (k : ℕ) (value : Bool)
      → (k == xmit_top_dir) ≡ false
      → (k == xmit_extended_flags) ≡ false
      → (k == xmit_long_name) ≡ false
      → has_flag sent k ≡ value
      → has_flag came k ≡ value
  arrives k value a b c h =
      arrived-same_flag sent e.mode w.settings.version w.settings.varint_flist_flags k a b c ∙ h

  not_linked : leb 30 w.settings.version ≡ true → hlink_marked w.settings e ≡ false
  unfolding hlink_marked
  not_linked new = ground arith

  no_name : leb 30 w.settings.version && (hlink_marked w.settings e && e.dev == w.last_dev) ≡ false
  no_name = elim (Bool-cases (leb 30 w.settings.version)) [
    | inl new ↦ rw (new, not_linked new)
    | inr old ↦ rw old
  ]

  top_dir_arrives : is_dir e.mode && has_flag came xmit_top_dir ≡ is_dir e.mode && e.top_dir
  top_dir_arrives =
      arrived-top_dir sent e.mode w.settings.version w.settings.varint_flist_flags
      ∙ ap (λ b. is_dir e.mode && b) (top_dir_flag w e)
      ∙ and_twice (is_dir e.mode) e.top_dir

  content_twice :
      is_dir e.mode && (is_dir e.mode && (leb 30 w.settings.version && e.no_content_dir))
      ≡ is_dir e.mode && (leb 30 w.settings.version && e.no_content_dir)
  content_twice = and_twice (is_dir e.mode) (leb 30 w.settings.version && e.no_content_dir)

  mod_nsec_kept :
      (if leb 31 w.settings.version && not (e.mod_nsec == 0) then e.mod_nsec else 0)
      ≡ (if leb 31 w.settings.version then e.mod_nsec else 0)
  mod_nsec_kept = ground arith

no_group : (w : FlistWriter) → leb 30 w.settings.version && false ≡ false
no_group w = ground arith

module _ (w : FlistWriter) (e : Entry) (v : IsEntry w e) (used rdev_major : ℕ) (rest : Bytes) where
  device_arrives :
      (if sends_dev_ino w.settings e.mode (hlink_marked w.settings e)
        then (if leb 26 w.settings.version && (hlink_marked w.settings e && e.dev == w.last_dev)
            then 0
            else e.dev)
        else 0)
      ≡ (if sends_dev_ino w.settings e.mode (hlink_marked w.settings e) then e.dev else 0)
  device_arrives = ground (arith, v.fresh_device)

  pub fields_read :
      read_fields
        (record (mirror w used rdev_major) { last_name = e.name })
        (came w e)
        e.name
        (write_fields w.settings (sent w e) e ++ rest)
      ≡ ok
          (
            carried w e,
            fields_taken
                (record (mirror w used rdev_major) { last_name = e.name })
                e.mtime
                e.mode
                (if w.settings.has_atimes && not (is_dir e.mode) then e.atime else 0)
                (if w.settings.preserve_uid then e.uid else 0)
                (if w.settings.preserve_gid then e.gid else 0),
          )
          rest
  unfolding read_fields write_fields
  fields_read = simp append_assoc (
      rw
        (
          arrives w e xmit_same_time _ refl refl refl (same_time_flag w e),
          arrives w e xmit_mod_nsec _ refl refl refl (mod_nsec_flag w e),
          arrives w e xmit_same_mode _ refl refl refl (same_mode_flag w e),
          arrives w e xmit_same_atime _ refl refl refl (same_atime_flag w e),
          arrives w e xmit_same_uid _ refl refl refl (same_uid_flag w e),
          arrives w e xmit_same_gid _ refl refl refl (same_gid_flag w e),
          arrives w e xmit_user_name_follows _ refl refl refl (same_dev_flag w e),
          arrives w e xmit_group_name_follows _ refl refl refl (minor8_flag w e),
          arrives w e xmit_same_rdev_major _ refl refl refl (no_content_dir_flag w e),
          arrives w e xmit_hlinked _ refl refl refl (hlinked_flag w e),
          same_time_flag w e,
          mod_nsec_flag w e,
          same_mode_flag w e,
          same_atime_flag w e,
          same_uid_flag w e,
          same_gid_flag w e,
          same_dev_flag w e,
          minor8_flag w e,
          no_content_dir_flag w e,
          hlinked_flag w e,
        )
        (rw
          (
            read_size-write_size w.settings.version _ e.size v.size_fits,
            read_mtime-write_mtime w.settings.version _ (e.mtime == w.last_mtime) w.last_mtime
                e.mtime v.mtime_fits v.old_mtime_fits (λ h. ground arith),
            read_mod_nsec-write_mod_nsec _ (leb 31 w.settings.version && not (e.mod_nsec == 0))
                e.mod_nsec v.mod_nsec_fits,
            read_mode-write_mode _ (e.mode == w.last_mode) w.last_mode e.mode v.mode_fits
                (λ h. ground arith),
            mode_accepted w e v _,
            read_atime-write_atime _ w.settings.has_atimes
                (w.settings.has_atimes && not (is_dir e.mode) && e.atime == w.last_atime) e.mode
                w.last_atime e.atime v.atime_fits (λ h. ground arith),
            read_id-write_id w.settings.version _ w.settings.preserve_uid
                (same_id w.settings.preserve_uid w.last_name e.uid w.last_uid)
                (hlink_marked w.settings e && e.dev == w.last_dev) w.last_uid e.uid e.user_name
                v.uid_fits (same_id-eq w.settings.preserve_uid w.last_name e.uid w.last_uid)
                (no_name w e),
            read_id-write_id w.settings.version _ w.settings.preserve_gid
                (same_id w.settings.preserve_gid w.last_name e.gid w.last_gid) false w.last_gid
                e.gid e.group_name v.gid_fits
                (same_id-eq w.settings.preserve_gid w.last_name e.gid w.last_gid) (no_group w),
            rdev_group w e v _ (leb 30 w.settings.version && e.no_content_dir) rdev_major,
            link_group w e v _,
            dev_ino_group w e v _ (hlink_marked w.settings e && e.dev == w.last_dev),
            checksum_group w e v rest,
            top_dir_arrives w e,
            content_twice w e,
            mod_nsec_kept w e,
            device_arrives,
          )
          (unfold carried in refl)))

module _ (w : FlistWriter) (e : Entry) where
  linked_late : leb 30 w.settings.version && hlink_marked w.settings e ≡ false
  linked_late = elim (Bool-cases (leb 30 w.settings.version)) [
    | inl new ↦ rw (new, not_linked w e new)
    | inr old ↦ rw old
  ]

  written_in_full : is_abbreviated w.settings.version (sent w e) ≡ false
  unfolding is_abbreviated
  written_in_full = rw (hlinked_flag w e) (
      three (leb 30 w.settings.version) (hlink_marked w.settings e)
        (not (has_flag (sent w e) xmit_hlink_first)) linked_late)
    where
      three : (a b c : Bool) → a && b ≡ false → a && b && c ≡ false
      three a b c h = ground arith

  pub read_in_full : is_reference w.settings (came w e) ≡ false
  unfolding is_reference
  read_in_full = rw (arrives w e xmit_hlinked _ refl refl refl (hlinked_flag w e)) (
      four (leb 30 w.settings.version) w.settings.preserve_hardlinks (hlink_marked w.settings e)
        (not (has_flag (came w e) xmit_hlink_first)) linked_late)
    where
      four : (a p b c : Bool) → a && b ≡ false → a && p && b && c ≡ false
      four a p b c h = ground arith

  -- The writer behind the entry.
  abbrev pub after : FlistWriter
  after = fields_written (record w { last_dev = dev_after w e; last_name = e.name }) (sent w e) e

  pub write_entry-full : write_entry w e ≡ (
    write_xflags (sent w e) e.mode w.settings.version w.settings.varint_flist_flags
        ++ write_name
            (has_flag (sent w e) xmit_same_name)
            (has_flag (sent w e) xmit_long_name)
            (common_prefix_len w.last_name e.name)
            e.name
        ++ write_fields w.settings (sent w e) e,
    after,
  )
  unfolding write_entry
  write_entry-full = rw written_in_full

  -- The reader's values are the writer's again.
  pub mirrors :
      (used rdev_major : ℕ)
      → fields_taken
          (record (mirror w used rdev_major) { last_name = e.name })
          e.mtime
          e.mode
          (if w.settings.has_atimes && not (is_dir e.mode) then e.atime else 0)
          (if w.settings.preserve_uid then e.uid else 0)
          (if w.settings.preserve_gid then e.gid else 0)
        ≡ mirror after (used + 1) rdev_major
  unfolding fields_taken fields_written
  mirrors used rdev_major =
      rw
        (
          same_time_flag w e,
          same_mode_flag w e,
          same_atime_flag w e,
          same_uid_flag w e,
          same_gid_flag w e,
        )
        (ground arith)
