-- ===== src/Flist/Panics.antt =====
-- A prefix longer than the name before it.
use go_rsyncfs.Base.{
  ℕ, zero, suc, ◌+◌, ◌<◌, ◌≡◌, refl, false, true, ◌∷◌, ◌++◌, ltb, Bytes, length, arith, ◌==◌, ◌||◌,
}
use go_rsyncfs.Io.{ok, err, panic, read_byte}
use go_rsyncfs.Io.Laws.{read_full-append}
use go_rsyncfs.Wire.Fixed.{is_neg32}
use go_rsyncfs.Flist.Entry.{has_flag, xmit_same_name, xmit_long_name, max_path_len}
use go_rsyncfs.Flist.Read.{FlistReader, read_xflags, read_name, read_suffix, join_name, read_entry}

named-ne-zero : (x : ℕ) → has_flag x xmit_same_name ≡ true → (x == 0) ≡ false
unfolding has_flag
named-ne-zero zero h = cc
named-ne-zero (suc x) h = ground arith

read_name-panics :
    (last : Bytes) (l1 : ℕ) (suffix rest : Bytes)
    → length last < l1
    → l1 < 256
    → length suffix < 256
    → read_name last true false (l1 ∷ (length suffix ∷ (suffix ++ rest))) ≡ err panic rest
unfolding read_name read_suffix join_name read_byte
read_name-panics last l1 suffix rest longer small short =
    let fits : (is_neg32 (length suffix) || ltb max_path_len (l1 + length suffix)) ≡ false =
      ground arith in
    let over : ltb (length last) l1 ≡ true = ground arith in
    rw (fits, read_full-append (length suffix) suffix rest refl, over) refl

-- An entry whose flags, in any encoding, tell of a common prefix and of a suffix with a length of
-- one byte makes ReadEntry panic, whatever the suffix, when the prefix is longer than the name
-- before it.
pub read_entry-panics :
    (r : FlistReader) (s : Bytes) (x l1 : ℕ) (suffix rest : Bytes)
    → read_xflags r.settings.version r.settings.varint_flist_flags s
      ≡ ok x (l1 ∷ (length suffix ∷ (suffix ++ rest)))
    → has_flag x xmit_same_name ≡ true
    → has_flag x xmit_long_name ≡ false
    → length r.last_name < l1
    → l1 < 256
    → length suffix < 256
    → read_entry r s ≡ err panic rest
unfolding read_entry
read_entry-panics r s x l1 suffix rest flags same short longer small short_suffix =
    rw
      (
        flags,
        named-ne-zero x same,
        same,
        short,
        read_name-panics r.last_name l1 suffix rest longer small short_suffix,
      )
      refl
