-- ===== src/Sender/Order/Examples.antt =====
-- Names in order.
use go_rsyncfs.Base.{◌≡◌, refl, false, [], ◌∷◌, Bytes}
use go_rsyncfs.Sender.Order.{
  before, after, compare_bytes, components, compare_components, flist_name_cmp,
}
use go_rsyncfs.Sender.Order.Total.{reversed, HasNoDot, flist_name_cmp-reversed}

-- "d/x" and "e"
abbrev nested : Bytes
nested = b'd' ∷ b'/' ∷ b'x' ∷ []

abbrev plain : Bytes
plain = b'e' ∷ []

-- A file stands before a directory from version 29 on.
file_before_dir : flist_name_cmp nested false plain false 29 ≡ after
unfolding flist_name_cmp components compare_components compare_bytes
file_before_dir = refl

bytes_below_29 : flist_name_cmp nested false plain false 28 ≡ before
unfolding flist_name_cmp components compare_components compare_bytes
bytes_below_29 = refl

nested-HasNoDot : HasNoDot (components nested)
unfolding components
nested-HasNoDot = (refl, (refl, tt))

flist_name_cmp-reversed_example :
    flist_name_cmp plain false nested false 29
    ≡ reversed (flist_name_cmp nested false plain false 29)
flist_name_cmp-reversed_example =
    flist_name_cmp-reversed nested false plain false 29 nested-HasNoDot
