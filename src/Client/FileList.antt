-- ===== src/Client/FileList.antt =====
-- The file list as the client reads it (client-open.go readFileList and what it calls).
pub mod Entries
pub mod Trailer
pub mod Delivery
pub mod Total
pub mod Examples
use go_rsyncfs.Base.{
  ℕ, zero, suc, Bool, true, false, not, ◌&&◌, List, [], ◌∷◌, Bytes, length, ltb, leb, ◌==◌,
  if◌then◌else◌, some, none,
}
use go_rsyncfs.Io.{
  Error, Result, ok, err, Reader, bind, ◌>>=◌, return, fail, eof, out_of_fuel, split_at, read_byte,
}
use go_rsyncfs.Wire.Fixed.{read_int32}
use go_rsyncfs.Wire.Var.{read_varint}
use go_rsyncfs.Flist.Entry.{Entry}
use go_rsyncfs.Flist.Read.{FlistReader, new_flist_reader, read_entry}
use go_rsyncfs.Flist.Read.Setters.{set_preserve_hardlinks}

-- The part of a Session that the file list depends on.
pub record Session : Type 0 where
  pub version : ℕ
  pub varint_flist : Bool
  pub id0_names : Bool

-- An error of ReadEntry: io.EOF ends the list, any other is returned.
unfoldable pub list_end : Error → Reader (List Entry)
list_end eof s = ok [] s
list_end e s = err e s

-- The loop of readFileList.
unfoldable pub read_entries : ℕ → FlistReader → Reader (List Entry)
unfolding list_end
read_entries zero r s = err out_of_fuel s
read_entries (suc fuel) r s = elim (read_entry r s) [
  | ok (e, r') t ↦ bind (read_entries fuel r' t) (λ es. return (e ∷ es))
  | err e t ↦ list_end e t
]

unfoldable pub read_id_varint : ℕ → Reader ℕ
read_id_varint version = if leb 30 version then read_varint else read_int32

-- io.CopyN to io.Discard, which gives io.EOF if the bytes run out.
unfoldable pub discard : ℕ → Reader (Unit {0})
discard n s = elim (split_at n s) [ some (p, r) ↦ ok tt r | none ↦ err eof [] ]

unfoldable pub skip_id_name : Reader (Unit {0})
unfolding discard
skip_id_name = do n ← read_byte; if n == 0 then return tt else discard n

-- The loop of readIDList.
unfoldable pub read_ids : ℕ → ℕ → Reader (Unit {0})
unfolding read_id_varint skip_id_name
read_ids zero version = fail out_of_fuel
read_ids (suc fuel) version = do
  id ← read_id_varint version
  if id == 0 then return tt else (do name ← skip_id_name; read_ids fuel version)

-- Each id takes a byte at least.
unfoldable pub read_id_list : Session → Bool → Reader (Unit {0})
unfolding read_ids
read_id_list c present s =
    if not present
    then ok tt s
    else bind (read_ids (suc (length s)) c.version s)
        (λ (end : Unit {0}). if c.id0_names then skip_id_name else return tt)

unfoldable pub read_flist_trailer : Session → Reader (Unit {0})
read_flist_trailer c = do
  uids ← read_id_list c true
  gids ← read_id_list c true
  if not c.varint_flist && ltb c.version 30
      then (do io_error ← read_int32; return tt)
      else return tt

-- Each entry takes a byte at least.
unfoldable pub read_file_list : Session → Reader (List Entry)
read_file_list c s =
    bind
      (read_entries (suc (length s))
        (set_preserve_hardlinks false (new_flist_reader c.version c.varint_flist)) s)
      (λ es. do end ← read_flist_trailer c; return es)
