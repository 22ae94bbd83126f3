-- ===== src/Flist/Xflags.antt =====
-- Each flag that computeXflags sets, by the field that it is about.
use go_rsyncfs.Base.{
  ℕ, ◌-◌, ◌^◌, ◌<◌, ◌≡◌, Bool, false, Bool-cases, inl, inr, not, ◌&&◌, ◌||◌, leb, ltb, ◌==◌, length,
  arith,
}
use go_rsyncfs.Flist.Entry.{
  xmit_top_dir, xmit_same_mode, xmit_extended_flags, xmit_same_uid, xmit_same_gid, xmit_same_name,
  xmit_long_name, xmit_same_time, xmit_no_content_dir, xmit_hlinked, xmit_same_dev_pre30,
  xmit_rdev_minor8_pre30, xmit_mod_nsec, xmit_same_atime, has_flag, is_dir, common_prefix_len,
  Entry,
}
use go_rsyncfs.Flist.Write.{FlistWriter, is_nil, hlink_marked, compute_xflags}
use go_rsyncfs.Flist.Flags.{has_flag-set_if, has_flag-zero, set_if-lt, set_if-unset, or-false}

ruleset flags = (has_flag-set_if, has_flag-zero, or-false)

module _ (w : FlistWriter) (e : Entry) where
  abbrev pub flag : ℕ → Bool
  flag k = has_flag (compute_xflags w e) k

  pub top_dir_flag : flag xmit_top_dir ≡ is_dir e.mode && e.top_dir
  unfolding compute_xflags
  top_dir_flag = simp flags

  pub same_mode_flag : flag xmit_same_mode ≡ (e.mode == w.last_mode)
  unfolding compute_xflags
  same_mode_flag = simp flags

  pub extended_flag : flag xmit_extended_flags ≡ false
  unfolding compute_xflags
  extended_flag = simp flags

  pub same_uid_flag :
      flag xmit_same_uid
      ≡ not w.settings.preserve_uid || (not (is_nil w.last_name) && e.uid == w.last_uid)
  unfolding compute_xflags
  same_uid_flag = simp flags

  pub same_gid_flag :
      flag xmit_same_gid
      ≡ not w.settings.preserve_gid || (not (is_nil w.last_name) && e.gid == w.last_gid)
  unfolding compute_xflags
  same_gid_flag = simp flags

  pub same_name_flag : flag xmit_same_name ≡ ltb 0 (common_prefix_len w.last_name e.name)
  unfolding compute_xflags
  same_name_flag = simp flags

  pub long_name_flag :
      flag xmit_long_name ≡ ltb 255 (length e.name - common_prefix_len w.last_name e.name)
  unfolding compute_xflags
  long_name_flag = simp flags

  pub same_time_flag : flag xmit_same_time ≡ (e.mtime == w.last_mtime)
  unfolding compute_xflags
  same_time_flag = simp flags

  pub no_content_dir_flag :
      flag xmit_no_content_dir ≡ is_dir e.mode && (leb 30 w.settings.version && e.no_content_dir)
  unfolding compute_xflags
  no_content_dir_flag = simp flags

  pub hlinked_flag : flag xmit_hlinked ≡ hlink_marked w.settings e
  unfolding compute_xflags
  hlinked_flag = simp flags

  pub same_dev_flag : flag xmit_same_dev_pre30 ≡ hlink_marked w.settings e && e.dev == w.last_dev
  unfolding compute_xflags
  same_dev_flag = simp flags

  pub minor8_flag : flag xmit_rdev_minor8_pre30 ≡ false
  unfolding compute_xflags
  minor8_flag = simp flags

  pub mod_nsec_flag : flag xmit_mod_nsec ≡ leb 31 w.settings.version && not (e.mod_nsec == 0)
  unfolding compute_xflags
  mod_nsec_flag = simp flags

  pub same_atime_flag :
      flag xmit_same_atime ≡ w.settings.has_atimes && not (is_dir e.mode) && e.atime == w.last_atime
  unfolding compute_xflags
  same_atime_flag = simp flags

  -- The flags fit two bytes.
  pub compute_xflags-lt : compute_xflags w e < 2 ^ 15
  unfolding compute_xflags
  compute_xflags-lt =
      set_if-lt _ 9 _ 15
        (set_if-lt _ 10 _ 15
          (set_if-lt _ 14 _ 15
            (set_if-lt _ 13 _ 15
              (set_if-lt _ 6 _ 15
                (set_if-lt _ 5 _ 15
                  (set_if-lt _ 7 _ 15
                    (set_if-lt _ 4 _ 15
                      (set_if-lt _ 3 _ 15
                        (set_if-lt _ 1 _ 15
                          (set_if-lt _ 0 _ 15 (set_if-lt _ 8 0 15 (omega arith) (omega arith))
                            (omega arith))
                          (omega arith))
                        (omega arith))
                      (omega arith))
                    (omega arith))
                  (omega arith))
                (omega arith))
              (omega arith))
            (omega arith))
          (omega arith))
        (omega arith)

  -- Below version 28, with no access times, they fit one.
  pub compute_xflags-lt-byte :
      w.settings.version < 28 → w.settings.has_atimes ≡ false → compute_xflags w e < 2 ^ 8
  unfolding compute_xflags hlink_marked
  compute_xflags-lt-byte old none_kept = set_if-unset (hlink_marked w.settings e) 9 _ 8 unmarked (
      set_if-unset (hlink_marked w.settings e && e.dev == w.last_dev) 10 _ 8 (rw unmarked) (
        set_if-unset _ 14 _ 8 (rw none_kept) (
          set_if-unset _ 13 _ 8 (rw before_31) (
            set_if-lt _ 6 _ 8
              (set_if-lt _ 5 _ 8
                (set_if-lt _ 7 _ 8
                  (set_if-lt _ 4 _ 8
                    (set_if-lt _ 3 _ 8
                      (set_if-lt _ 1 _ 8
                        (set_if-lt _ 0 _ 8 (set_if-unset _ 8 0 8 no_bare (omega arith))
                          (omega arith))
                        (omega arith))
                      (omega arith))
                    (omega arith))
                  (omega arith))
                (omega arith))
              (omega arith)))))
    where
      unmarked : hlink_marked w.settings e ≡ false
      unmarked = ground arith

      before_31 : leb 31 w.settings.version ≡ false
      before_31 = ground arith

      before_30 : leb 30 w.settings.version ≡ false
      before_30 = ground arith

      no_bare : is_dir e.mode && (leb 30 w.settings.version && e.no_content_dir) ≡ false
      no_bare = rw before_30 (elim (Bool-cases (is_dir e.mode)) [ inl a ↦ rw a | inr b ↦ rw b ])
