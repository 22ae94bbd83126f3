-- ===== src/Flist/RoundTrip/Whole.antt =====
-- A whole entry.
use go_rsyncfs.Base.{
  ℕ, ◌+◌, ◌-◌, ◌<◌, ◌≡◌, ◌⊎◌, refl, ◌∙◌, true, inl, inr, ◌++◌, append_assoc, Bytes, length, ltb,
}
use go_rsyncfs.Io.{ok}
use go_rsyncfs.Flist.Entry.{xmit_same_name, xmit_long_name, has_flag, Entry, common_prefix_len}
use go_rsyncfs.Flist.Write.{FlistWriter, write_xflags, write_name, write_entry}
use go_rsyncfs.Flist.Read.{read_xflags, read_name, read_named, read_entry}
use go_rsyncfs.Flist.Xflags.{
  extended_flag, same_name_flag, long_name_flag, compute_xflags-lt, compute_xflags-lt-byte,
}
use go_rsyncfs.Flist.Arrival.{read_xflags-write_xflags}
use go_rsyncfs.Flist.Arrival.Kinds.{arrived-ne-zero, arrived-long_name}
use go_rsyncfs.Flist.Name.{read_name-write_name}
use go_rsyncfs.Flist.RoundTrip.{mirror, carried, IsEntry}
use go_rsyncfs.Flist.RoundTrip.Body.{
  sent, came, arrives, fields_read, read_in_full, write_entry-full, mirrors,
}

module _ (w : FlistWriter) (e : Entry) (v : IsEntry w e) (rest : Bytes) where
  xflags_read :
      read_xflags w.settings.version w.settings.varint_flist_flags
        (write_xflags (sent w e) e.mode w.settings.version w.settings.varint_flist_flags ++ rest)
      ≡ ok (came w e) rest
  xflags_read =
      read_xflags-write_xflags (sent w e) e.mode w.settings.version rest (compute_xflags-lt w e)
        (extended_flag w e) w.settings.varint_flist_flags
        (λ old one_byte. compute_xflags-lt-byte w e old (v.old_atimes old one_byte))

  long_or_mistaken :
      (has_flag (came w e) xmit_long_name
        ≡ ltb 255 (length e.name - common_prefix_len w.last_name e.name))
      ⊎ ((has_flag (came w e) xmit_long_name ≡ true)
          × (length e.name - common_prefix_len w.last_name e.name < 128))
  long_or_mistaken =
      elim (arrived-long_name (sent w e) e.mode w.settings.version w.settings.varint_flist_flags) [
        | inl same ↦ inl (same ∙ long_name_flag w e)
        | inr (long, mistake) ↦ inr (long, v.old_dir_name mistake)
      ]

  name_read :
      read_name w.last_name
        (has_flag (came w e) xmit_same_name)
        (has_flag (came w e) xmit_long_name)
        (write_name
            (has_flag (sent w e) xmit_same_name)
            (has_flag (sent w e) xmit_long_name)
            (common_prefix_len w.last_name e.name)
            e.name
          ++ rest)
      ≡ ok e.name rest
  name_read =
      rw
        (
          arrives w e xmit_same_name _ refl refl refl (same_name_flag w e),
          same_name_flag w e,
          long_name_flag w e,
        )
        (read_name-write_name w.last_name e.name rest (has_flag (came w e) xmit_long_name)
          v.name_fits long_or_mistaken)

module _ (w : FlistWriter) (e : Entry) (v : IsEntry w e) (rest : Bytes) (used rdev_major : ℕ) where
  pub read_entry-write_entry :
      read_entry (mirror w used rdev_major) ((write_entry w e).0 ++ rest)
      ≡ ok (carried w e, mirror (write_entry w e).1 (used + 1) rdev_major) rest
  unfolding read_entry read_named
  read_entry-write_entry = rw (write_entry-full w e) (
      simp append_assoc (
        rw (
          xflags_read w e v _,
          arrived-ne-zero (sent w e) e.mode w.settings.version w.settings.varint_flist_flags,
          name_read w e v _,
          read_in_full w e,
          fields_read w e v used rdev_major rest,
          mirrors w e used rdev_major,
        )))
