-- ===== src/Flist/Tame.antt =====
-- The readers of a file list are tame.
use go_rsyncfs.Base.{ℕ, ◌≡◌, refl, Bool, true, false, Bytes, ◌==◌}
use go_rsyncfs.Io.{
  Error, Result, ok, err, fail, name_overflow, hlink_out_of_range, invalid_mode, root_not_dir,
  panic,
}
use go_rsyncfs.Io.Tame.{
  IsTame, Tame, IsStrict, bind-IsStrict, if-IsStrict, read_byte-IsStrict, is_fuel, bind-IsTame,
  return-IsTame, fail-IsTame, if-IsTame, read_full-IsTame, read_byte-IsTame,
}
use go_rsyncfs.Wire.Fixed.Tame.{read_uint32-IsTame, read_int32-IsTame, read_longint-IsTame}
use go_rsyncfs.Wire.Var.{read_varint}
use go_rsyncfs.Wire.Var.Tame.{read_varint-IsStrict, read_varint-IsTame, read_varlong-IsTame}
use go_rsyncfs.Flist.Entry.{has_flag, xmit_same_name, xmit_long_name}
use go_rsyncfs.Flist.Read.{
  FlistReader, read_xflags, join_name, read_suffix, read_name, read_hlink_ndx, read_size,
  read_mtime, read_mod_nsec, read_mode, check_mode, read_atime, read_short_name, read_id, read_rdev,
  read_target, read_link, read_dev_ino, read_fields, read_named, read_end, end_of_list, end_error,
  read_entry,
}

name_overflow-IsTame : IsTame {A = Bytes} (fail name_overflow)
unfolding is_fuel
name_overflow-IsTame = fail-IsTame name_overflow refl

panic-IsTame : IsTame {A = Bytes} (fail panic)
unfolding is_fuel
panic-IsTame = fail-IsTame panic refl

hlink-IsTame : IsTame {A = ℕ} (fail hlink_out_of_range)
unfolding is_fuel
hlink-IsTame = fail-IsTame hlink_out_of_range refl

mode-IsTame : IsTame {A = ℕ} (fail invalid_mode)
unfolding is_fuel
mode-IsTame = fail-IsTame invalid_mode refl

root-IsTame : IsTame {A = ℕ} (fail root_not_dir)
unfolding is_fuel
root-IsTame = fail-IsTame root_not_dir refl

ruleset tame = (
  bind-IsTame, return-IsTame, if-IsTame, read_full-IsTame, read_byte-IsTame, read_uint32-IsTame,
  read_int32-IsTame, read_longint-IsTame, read_varint-IsTame, read_varlong-IsTame,
  name_overflow-IsTame, panic-IsTame, hlink-IsTame, mode-IsTame, root-IsTame,
)

read_name-IsTame : (last : Bytes) (same long : Bool) → IsTame (read_name last same long)
unfolding read_name read_suffix join_name
read_name-IsTame last same long = search tame

read_hlink_ndx-IsTame : (used : ℕ) → IsTame (read_hlink_ndx used)
unfolding read_hlink_ndx
read_hlink_ndx-IsTame used = search tame

read_size-IsTame : (version : ℕ) → IsTame (read_size version)
unfolding read_size
read_size-IsTame version = search tame

read_mtime-IsTame : (version : ℕ) (same : Bool) (last : ℕ) → IsTame (read_mtime version same last)
unfolding read_mtime
read_mtime-IsTame version same last = search tame

read_mod_nsec-IsTame : (sent : Bool) → IsTame (read_mod_nsec sent)
unfolding read_mod_nsec
read_mod_nsec-IsTame sent = search tame

read_mode-IsTame : (same : Bool) (last : ℕ) → IsTame (read_mode same last)
unfolding read_mode
read_mode-IsTame same last = search tame

check_mode-IsTame : (name : Bytes) (mode : ℕ) → IsTame (check_mode name mode)
unfolding check_mode
check_mode-IsTame name mode = search tame

read_atime-IsTame :
    (has : Bool) (mode : ℕ) (same : Bool) (last : ℕ) → IsTame (read_atime has mode same last)
unfolding read_atime
read_atime-IsTame has mode same last = search tame

read_id-IsTame :
    (version : ℕ) (preserve same follows : Bool) (last : ℕ)
    → IsTame (read_id version preserve same follows last)
unfolding read_id read_short_name
read_id-IsTame version preserve same follows last = search tame depth 12

read_rdev-IsTame :
    (version : ℕ) (same minor8 : Bool) (last : ℕ) → IsTame (read_rdev version same minor8 last)
unfolding read_rdev
read_rdev-IsTame version same minor8 last = search tame depth 12

read_link-IsTame : (version : ℕ) → IsTame (read_link version)
unfolding read_link read_target
read_link-IsTame version = search tame

read_dev_ino-IsTame : (version : ℕ) (same : Bool) → IsTame (read_dev_ino version same)
unfolding read_dev_ino
read_dev_ino-IsTame version same = search tame

ruleset fields = (
  bind-IsTame, return-IsTame, if-IsTame, read_full-IsTame, read_size-IsTame, read_mtime-IsTame,
  read_mod_nsec-IsTame, read_mode-IsTame, check_mode-IsTame, read_atime-IsTame, read_id-IsTame,
  read_rdev-IsTame, read_link-IsTame, read_dev_ino-IsTame, read_hlink_ndx-IsTame,
)

read_fields-IsTame : (r : FlistReader) (x : ℕ) (name : Bytes) → IsTame (read_fields r x name)
unfolding read_fields
read_fields-IsTame r x name = search fields depth 40

read_named-IsTame : (r : FlistReader) (x : ℕ) (name : Bytes) → IsTame (read_named r x name)
unfolding read_named
read_named-IsTame r x name = search (fields, read_fields-IsTame) depth 12

read_xflags-IsStrict : (version : ℕ) (f : Bool) → IsStrict (read_xflags version f)
unfolding read_xflags
read_xflags-IsStrict version f =
    if-IsStrict f _ _ read_varint-IsStrict
      (bind-IsStrict _ _ read_byte-IsStrict (λ b. search tame depth 12))

end_error-fuel : (e : Error) → is_fuel (end_error e) ≡ false
unfolding end_error is_fuel
end_error-fuel panic = refl
end_error-fuel e = refl

read_end-Tame : (s : Bytes) (o : Result ℕ) → Tame s (end_of_list o)
unfolding end_of_list is_fuel
read_end-Tame s (ok v t) = refl
read_end-Tame s (err e t) = end_error-fuel e

read_end-IsTame : (f : Bool) → IsTame (read_end f)
unfolding read_end is_fuel
read_end-IsTame true = record { outcome = λ s. read_end-Tame s (read_varint s) }
read_end-IsTame false = record { outcome = λ s. refl }

pub read_entry-IsStrict : (r : FlistReader) → IsStrict (read_entry r)
unfolding read_entry
read_entry-IsStrict r =
    bind-IsStrict _ _ (read_xflags-IsStrict r.settings.version r.settings.varint_flist_flags) (λ x.
      if-IsTame (x == 0) _ _ (read_end-IsTame r.settings.varint_flist_flags) (
        bind-IsTame _ _
          (read_name-IsTame r.last_name (has_flag x xmit_same_name) (has_flag x xmit_long_name))
          (λ name. read_named-IsTame (record r { last_name = name }) x name)))
