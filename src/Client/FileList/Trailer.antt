-- ===== src/Client/FileList/Trailer.antt =====
-- What follows the end of the list: the id lists and the error count.
use go_rsyncfs.Base.{
  ◌≤◌, ◌≡◌, refl, true, false, Bool-cases, inl, inr, not, ◌&&◌, [], ◌∷◌, ◌++◌, append_assoc, Bytes,
  ltb, leb, arith, if◌then◌else◌,
}
use go_rsyncfs.Io.{ok, return, read_byte}
use go_rsyncfs.Wire.Fixed.{write_int32}
use go_rsyncfs.Wire.Fixed.RoundTrip.{read_int32-write_int32}
use go_rsyncfs.Wire.Var.{write_varint}
use go_rsyncfs.Wire.Var.RoundTrip.{read_varint-write_varint}
use go_rsyncfs.Flist.Write.{FlistWriter, write_id_list, write_id_lists, write_io_error_trailer}
use go_rsyncfs.Client.FileList.{
  Session, read_id_varint, skip_id_name, read_ids, read_id_list, read_flist_trailer,
}

-- An id list with no ids.
module _ (w : FlistWriter) (c : Session) (same_version : w.settings.version ≡ c.version)
    (same_id0 : w.id0_names ≡ c.id0_names) where
  zero_id :
      (rest : Bytes)
      → read_id_varint c.version
          ((if leb 30 c.version then write_varint 0 else write_int32 0) ++ rest)
        ≡ ok 0 rest
  unfolding read_id_varint
  zero_id rest = elim (Bool-cases (leb 30 c.version)) [
    | inl new ↦ rw new (read_varint-write_varint 0 rest (omega arith))
    | inr old ↦ rw old (read_int32-write_int32 0 rest (omega arith))
  ]

  no_name :
      (rest : Bytes)
      → (if c.id0_names then skip_id_name else return tt)
          ((if c.id0_names then 0 ∷ [] else []) ++ rest)
        ≡ ok tt rest
  unfolding skip_id_name read_byte
  no_name rest = elim (Bool-cases c.id0_names) [
    | inl named ↦ rw named refl
    | inr none_sent ↦ rw none_sent refl
  ]

  read_id_list-write_id_list :
      (rest : Bytes) → read_id_list c true (write_id_list w true ++ rest) ≡ ok tt rest
  unfolding read_id_list write_id_list read_ids
  read_id_list-write_id_list rest =
      rw (same_version, same_id0) (simp append_assoc (rw (zero_id _, no_name rest)))

  pub read_flist_trailer-write :
      (rest : Bytes)
      → w.settings.preserve_uid ≡ true
      → w.settings.preserve_gid ≡ true
      → (c.varint_flist ≡ true → 30 ≤ c.version)
      → read_flist_trailer c (write_id_lists w ++ (write_io_error_trailer w 0 ++ rest)) ≡ ok tt rest
  unfolding read_flist_trailer write_id_lists write_io_error_trailer
  read_flist_trailer-write rest uids gids negotiated =
      simp (uids, gids)
        (simp append_assoc (
          rw (read_id_list-write_id_list _, read_id_list-write_id_list _, same_version)
            (elim (Bool-cases (leb 30 c.version)) [
              | inl new ↦
                  let no_trailer : not c.varint_flist && ltb c.version 30 ≡ false = ground arith in
                  rw (new, no_trailer)
              | inr old ↦
                  let trailer : not c.varint_flist && ltb c.version 30 ≡ true = ground arith in
                  rw (old, trailer, read_int32-write_int32 0 rest (omega arith))
            ])))
