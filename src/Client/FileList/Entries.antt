-- ===== src/Client/FileList/Entries.antt =====
-- The loop over the entries, and the end of the list.
use go_rsyncfs.Base.{
  ℕ, zero, suc, ◌+◌, ◌<◌, ◌≡◌, refl, ◌∙◌, Bool, true, false, Bool-cases, inl, inr, List, [], ◌∷◌,
  ◌++◌, append_assoc, Bytes, length, length-append, arith,
}
use go_rsyncfs.Io.{ok, err, eof, read_byte}
use go_rsyncfs.Wire.Var.{write_varint}
use go_rsyncfs.Wire.Var.RoundTrip.{read_varint-write_varint, read_varint_nothing}
use go_rsyncfs.Flist.Entry.{Entry}
use go_rsyncfs.Flist.Write.{FlistWriter, write_entry, write_end_marker, fields_written}
use go_rsyncfs.Flist.Read.{FlistReader, read_xflags, read_end, read_entry}
use go_rsyncfs.Flist.RoundTrip.{mirror, carried, IsEntry}
use go_rsyncfs.Flist.RoundTrip.Whole.{read_entry-write_entry}
use go_rsyncfs.Sender.FileList.{write_entries}
use go_rsyncfs.Client.FileList.{read_entries}

abbrev pub AreEntries : FlistWriter → List Entry → Type 0
AreEntries w [] = Unit {0}
AreEntries w (e ∷ es) = IsEntry w e × AreEntries ((write_entry w e).1) es

unfoldable pub all_carried : FlistWriter → List Entry → List Entry
all_carried w [] = []
all_carried w (e ∷ es) = carried w e ∷ all_carried ((write_entry w e).1) es

pub write_entry-settings : (w : FlistWriter) (e : Entry) → (write_entry w e).1.settings ≡ w.settings
unfolding write_entry fields_written
write_entry-settings w e = ground arith

pub write_entry-id0_names :
    (w : FlistWriter) (e : Entry) → (write_entry w e).1.id0_names ≡ w.id0_names
unfolding write_entry fields_written
write_entry-id0_names w e = ground arith

pub write_entries-kept :
    (w : FlistWriter) (es : List Entry)
    → ((write_entries w es).1.settings ≡ w.settings)
      × ((write_entries w es).1.id0_names ≡ w.id0_names)
unfolding write_entries
write_entries-kept w [] = (refl, refl)
write_entries-kept w (e ∷ es) =
    let (same_settings, same_id0) = write_entries-kept ((write_entry w e).1) es in
    (same_settings ∙ write_entry-settings w e, same_id0 ∙ write_entry-id0_names w e)

xflags_of_nothing : (version : ℕ) (f : Bool) → read_xflags version f [] ≡ err eof []
unfolding read_xflags read_byte
xflags_of_nothing version true = read_varint_nothing
xflags_of_nothing version false = refl

-- No entry is read from nothing, so an entry that is read back has a byte.
nonempty :
    (r : FlistReader) (a : Entry × FlistReader) (t p : Bytes)
    → read_entry r (p ++ []) ≡ ok a t
    → 0 < length p
unfolding read_entry
nonempty r a t [] h = cc (xflags_of_nothing r.settings.version r.settings.varint_flist_flags)
nonempty r a t (b ∷ p) h = omega arith

read_end_marker :
    (w : FlistWriter) (used rdev_major : ℕ) (rest : Bytes)
    → read_entry (mirror w used rdev_major) (write_end_marker w ++ rest) ≡ err eof rest
unfolding read_entry read_xflags read_end write_end_marker read_byte
read_end_marker w used rdev_major rest = elim (Bool-cases (w.settings.varint_flist_flags)) [
  | inl varint ↦ rw varint (
      simp append_assoc (
        rw (
          read_varint-write_varint 0 (write_varint 0 ++ rest) (omega arith),
          read_varint-write_varint 0 rest (omega arith),
        )))
  | inr byte ↦ rw byte refl
]

-- The loop reads the entries that were written and ends behind the marker.
pub read_entries-write_entries :
    (fuel : ℕ) (w : FlistWriter) (es : List Entry) (used rdev_major : ℕ) (rest : Bytes)
    → AreEntries w es
    → length (write_entries w es).0 < fuel
    → read_entries fuel
        (mirror w used rdev_major)
        ((write_entries w es).0 ++ (write_end_marker (write_entries w es).1 ++ rest))
      ≡ ok (all_carried w es) rest
unfolding read_entries write_entries all_carried
read_entries-write_entries zero w es used rdev_major rest v h = absurd (omega arith)
read_entries-write_entries (suc fuel) w [] used rdev_major rest v h =
    rw (write_entries, read_entries, read_end_marker w used rdev_major rest)
read_entries-write_entries (suc fuel) w (e ∷ es) used rdev_major rest v h =
    let (x, xs) = v in
    let w' = (write_entry w e).1 in
    let some_byte =
      nonempty _ _ _ (write_entry w e).0 (read_entry-write_entry w e x [] used rdev_major) in
    let left : length (write_entries w' es).0 < fuel =
      omega (arith, length-append {0} (write_entry w e).0 (write_entries w' es).0) in
    simp append_assoc (
      rw (
        read_entries,
        read_entry-write_entry w e x _ used rdev_major,
        read_entries-write_entries fuel w' es (used + 1) rdev_major rest xs left,
      ))
