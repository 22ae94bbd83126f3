-- ===== src/Flist/Bounds.antt =====
-- What holds of every entry that ReadEntry returns, from any bytes at all.
use go_rsyncfs.Base.{
  ℕ, ◌+◌, ◌≤◌, ◌≡◌, ◌⊎◌, refl, Bool, true, false, Bool-cases, inl, inr, not, ◌&&◌, ◌||◌, [], Bytes,
  length, length-append, length-take, take, ltb, leb, ◌==◌, arith, if◌then◌else◌,
}
use go_rsyncfs.Io.{Result, ok, err, return, read_byte, read_full}
use go_rsyncfs.Io.Laws.{Yields, bind-Yields, bind-Yields_any, read_full_cases, read_full-shape}
use go_rsyncfs.Wire.Fixed.{is_neg32}
use go_rsyncfs.Wire.Var.{read_varint}
use go_rsyncfs.Flist.Entry.{
  max_path_len, has_flag, xmit_same_time, xmit_same_name, xmit_long_name, xmit_mod_nsec,
  xmit_same_mode, xmit_same_atime, xmit_same_uid, xmit_same_gid, xmit_user_name_follows,
  xmit_group_name_follows, xmit_same_rdev_major, xmit_rdev_minor8_pre30, xmit_hlinked,
  xmit_same_dev_pre30, is_dir, is_device, is_symlink, Entry,
}
use go_rsyncfs.Flist.Read.{
  FlistReader, read_name, read_suffix, join_name, read_xflags, read_hlink_ndx, check_mode,
  is_valid_mode, is_root_name, is_reference, takes_checksum, read_size, read_mtime, read_mod_nsec,
  read_mode, read_atime, read_id, read_rdev, read_link, takes_dev_ino, read_dev_ino, fields_taken,
  read_fields, read_named, read_end, end_of_list, read_entry,
}

read_full-length : (n : ℕ) (s : Bytes) → Yields (λ p. length p ≡ n) (read_full n s)
read_full-length n s = elim (read_full_cases n s) [
  | inl (p, r, e) ↦ rw e (read_full-shape n s p r e).0
  | inr e ↦ rw e tt
]

read_suffix-fits :
    (l1 l2 : ℕ) (s : Bytes) → Yields (λ p. l1 + length p ≤ max_path_len) (read_suffix l1 l2 s)
unfolding read_suffix
read_suffix-fits l1 l2 s = elim (Bool-cases (is_neg32 l2 || ltb max_path_len (l1 + l2))) [
  | inl over ↦ rw over tt
  | inr within ↦ rw within (elim (read_full_cases l2 s) [
    | inl (p, r, e) ↦ rw e (ground (arith, (read_full-shape l2 s p r e).0))
    | inr e ↦ rw e tt
  ])
]

join_name-fits :
    (last : Bytes) (l1 : ℕ) (suffix s : Bytes)
    → l1 + length suffix ≤ max_path_len
    → Yields (λ name. length name ≤ max_path_len) (join_name last l1 suffix s)
unfolding join_name
join_name-fits last l1 suffix s h = elim (Bool-cases (ltb (length last) l1)) [
  | inl over ↦ rw over tt
  | inr within ↦
      rw within (omega (arith, length-append {0} (take l1 last) suffix, length-take l1 last))
]

read_name-fits :
    (last : Bytes) (same long : Bool) (s : Bytes)
    → Yields (λ name. length name ≤ max_path_len) (read_name last same long s)
unfolding read_name
read_name-fits last same long s =
    bind-Yields_any _ ((if same then read_byte else return 0) s) _ (λ l1 t.
      bind-Yields_any _ ((if long then read_varint else read_byte) t) _ (λ l2 u.
        bind-Yields _ (λ p. l1 + length p ≤ max_path_len) (read_suffix l1 l2 u) _
          (read_suffix-fits l1 l2 u) (λ suffix v h. join_name-fits last l1 suffix v h)))

read_hlink_ndx-within :
    (used : ℕ) (s : Bytes) → Yields (λ ndx. (1 ≤ ndx) × (ndx ≤ used)) (read_hlink_ndx used s)
unfolding read_hlink_ndx
read_hlink_ndx-within used s = bind-Yields_any _ (read_varint s) _ (λ ndx t.
    elim (Bool-cases (is_neg32 ndx || leb (used + 1) ndx)) [
      | inl over ↦ rw over tt
      | inr within ↦ elim (Bool-cases (ltb ndx 1)) [
        | inl none_named ↦ rw (within, none_named) tt
        | inr some_named ↦ rw (within, some_named) (ground arith)
      ]
    ])

check_mode-accepts :
    (name : Bytes) (mode : ℕ) (s : Bytes)
    → Yields
        (λ m. (is_valid_mode m ≡ true) × (is_root_name name && not (is_dir m) ≡ false))
        (check_mode name mode s)
unfolding check_mode
check_mode-accepts name mode s = elim (Bool-cases (is_valid_mode mode)) [
  | inl valid ↦ elim (Bool-cases (is_root_name name && not (is_dir mode))) [
    | inl not_root ↦ rw (valid, not_root) tt
    | inr root ↦ rw (valid, root) (valid, root)
  ]
  | inr invalid ↦ rw invalid tt
]

-- An entry that the reader may return, and the reader behind it: a name within the limit, a mode of
-- one of the seven file types or 0, a directory under a name of the root unless the entry is a reference to
-- another one, which is one of those read, and a checksum that is whole or absent.
pub record IsSound (r : FlistReader) (read : Entry × FlistReader) : Type 0 where
  pub name_fits : length read.0.name ≤ max_path_len
  pub name_kept : read.1.last_name ≡ read.0.name
  pub settings_kept : read.1.settings ≡ r.settings
  pub one_more : read.1.used ≡ r.used + 1
  pub valid_mode : is_valid_mode read.0.mode ≡ true
  pub root_is_dir :
      (is_root_name read.0.name && not (is_dir read.0.mode) ≡ false) ⊎ (1 ≤ read.0.hlink_ndx)
  pub hlink_within : read.0.hlink_ndx ≤ r.used
  pub whole_checksum : (length read.0.checksum ≡ 0) ⊎ (length read.0.checksum ≡ 16)

read_checksum-whole :
    (sent : Bool) (s : Bytes)
    → Yields
        (λ (sum : Bytes). (length sum ≡ 0) ⊎ (length sum ≡ 16))
        ((if sent then read_full 16 else return []) s)
read_checksum-whole true s = elim (read_full_cases 16 s) [
  | inl (p, r, e) ↦ rw e (inr (read_full-shape 16 s p r e).0)
  | inr e ↦ rw e tt
]
read_checksum-whole false s = inl refl

module _ (r : FlistReader) (x : ℕ) (name : Bytes) (fits : length name ≤ max_path_len) where
  read_fields-IsSound :
      (s : Bytes) → Yields (IsSound r) (read_fields (record r { last_name = name }) x name s)
  unfolding read_fields fields_taken
  read_fields-IsSound s =
      let o = r.settings in
      bind-Yields_any _ (read_size o.version s) _ (λ size s1.
        bind-Yields_any _ (read_mtime o.version (has_flag x xmit_same_time) r.last_mtime s1) _
          (λ mtime s2.
            bind-Yields_any _ (read_mod_nsec (has_flag x xmit_mod_nsec) s2) _ (λ mod_nsec s3.
              bind-Yields_any _ (read_mode (has_flag x xmit_same_mode) r.last_mode s3) _
                (λ sent_mode s4.
                  bind-Yields _ _ (check_mode name sent_mode s4) _
                    (check_mode-accepts name sent_mode s4)
                    (λ mode s5 accepted.
                      bind-Yields_any _
                        (read_atime o.has_atimes mode (has_flag x xmit_same_atime) r.last_atime s5)
                        _
                        (λ atime s6.
                          bind-Yields_any _
                            (read_id o.version o.preserve_uid (has_flag x xmit_same_uid)
                              (has_flag x xmit_user_name_follows) r.last_uid s6)
                            _
                            (λ uid s7.
                              bind-Yields_any _
                                (read_id o.version o.preserve_gid (has_flag x xmit_same_gid)
                                  (has_flag x xmit_group_name_follows) r.last_gid s7)
                                _
                                (λ gid s8.
                                  bind-Yields_any _
                                    ((if o.preserve_devices && is_device mode
                                        then read_rdev o.version (has_flag x xmit_same_rdev_major)
                                            (has_flag x xmit_rdev_minor8_pre30) r.last_rdev_major
                                        else return (0, 0))
                                      s8)
                                    _
                                    (λ rdev s9.
                                      bind-Yields_any _
                                        ((if o.preserve_links && is_symlink mode
                                            then read_link o.version
                                            else return [])
                                          s9)
                                        _
                                        (λ link_target s10.
                                          bind-Yields_any _
                                            ((if takes_dev_ino o mode (has_flag x xmit_hlinked)
                                                then read_dev_ino o.version
                                                    (has_flag x xmit_same_dev_pre30)
                                                else return (0, 0))
                                              s10)
                                            _
                                            (λ dev_ino s11.
                                              bind-Yields _ _
                                                ((if takes_checksum o mode
                                                    then read_full 16
                                                    else return [])
                                                  s11)
                                                _ (read_checksum-whole (takes_checksum o mode) s11)
                                                (λ checksum s12 whole. record {
                                                  name_fits = fits;
                                                  name_kept = refl;
                                                  settings_kept = refl;
                                                  one_more = refl;
                                                  valid_mode = accepted.0;
                                                  root_is_dir = inl accepted.1;
                                                  hlink_within = omega arith;
                                                  whole_checksum = whole;
                                                }))))))))))))

  read_named-IsSound :
      (s : Bytes) → Yields (IsSound r) (read_named (record r { last_name = name }) x name s)
  unfolding read_named is_valid_mode
  read_named-IsSound s = elim (Bool-cases (is_reference r.settings x)) [
    | inl reference ↦ rw reference (
        bind-Yields _ _ (read_hlink_ndx r.used s) _ (read_hlink_ndx-within r.used s)
          (λ ndx t within. record {
            name_fits = fits;
            name_kept = refl;
            settings_kept = refl;
            one_more = refl;
            valid_mode = refl;
            root_is_dir = inr within.0;
            hlink_within = within.1;
            whole_checksum = inl refl;
          }))
    | inr whole ↦ rw whole (read_fields-IsSound s)
  ]

read_end-returns : (r : FlistReader) (f : Bool) (s : Bytes) → Yields (IsSound r) (read_end f s)
unfolding read_end end_of_list
read_end-returns r true s = no_entry (read_varint s)
  where
    no_entry : (o : Result ℕ) → Yields (IsSound r) (end_of_list o)
    no_entry (ok v t) = tt
    no_entry (err e t) = tt
read_end-returns r false s = tt

-- Whatever the bytes, an entry that ReadEntry returns has a name within MaxPathLen, a mode that is 0 or
-- of one of the seven file types, under a name of the root a directory or a reference, a reference to
-- an entry already read or none, and a whole checksum or none; the reader keeps its settings, takes
-- the name for the last one, and counts one entry more.
pub read_entry-IsSound : (r : FlistReader) (s : Bytes) → Yields (IsSound r) (read_entry r s)
unfolding read_entry
read_entry-IsSound r s =
    let o = r.settings in
    bind-Yields_any _ (read_xflags o.version o.varint_flist_flags s) _ (λ x t.
      elim (Bool-cases (x == 0)) [
        | inl end ↦ rw end (read_end-returns r o.varint_flist_flags t)
        | inr some_flag ↦ rw some_flag (
            bind-Yields _ _
              (read_name r.last_name (has_flag x xmit_same_name) (has_flag x xmit_long_name) t) _
              (read_name-fits r.last_name (has_flag x xmit_same_name) (has_flag x xmit_long_name) t)
              (λ name u fits. read_named-IsSound r x name fits u))
      ])
