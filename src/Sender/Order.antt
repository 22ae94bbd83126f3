-- ===== src/Sender/Order.antt =====
-- The order of a file list: flistNameCmp and sortFlist of server-send.go. A comparison is a value
-- of Order; strings.Compare goes by bytes, and strings.Split cuts at each slash.
pub mod Total
pub mod Examples
use go_rsyncfs.Base.{
  ℕ, Bool, true, false, not, ◌&&◌, ◌||◌, List, [], ◌∷◌, ◌++◌, Bytes, ltb, ◌==◌, if◌then◌else◌,
}
use go_rsyncfs.Base.Sorting.{sort}
use go_rsyncfs.Flist.Entry.{has_flag}
use go_rsyncfs.Sender.FileList.{FileEntry, is_dot}

-- The results -1, 0 and 1.
pub data Order : Type 0 where
  before same after : Order

unfoldable pub compare_bytes : Bytes → Bytes → Order
compare_bytes [] [] = same
compare_bytes [] (y ∷ ys) = before
compare_bytes (x ∷ xs) [] = after
compare_bytes (x ∷ xs) (y ∷ ys) =
    let rest = compare_bytes xs ys in if ltb x y then before else if ltb y x then after else rest

abbrev pub in_front : ℕ → List Bytes → List Bytes
in_front b [] = (b ∷ []) ∷ []
in_front b (c ∷ cs) = (b ∷ c) ∷ cs

-- strings.Split(name, "/")
unfoldable pub components : Bytes → List Bytes
components [] = [] ∷ []
components (b ∷ s) = let rest = components s in if b == b'/' then [] ∷ rest else in_front b rest

-- A component that others follow.
abbrev pub goes_on : List Bytes → Bool
goes_on [] = false
goes_on (c ∷ cs) = true

abbrev pub slash_if : Bool → Bytes → Bytes
slash_if c a = if c then a ++ (b'/' ∷ []) else a

-- The next components decide where these are the same.
abbrev pub or_next : Order → Order → Order
or_next before rest = before
or_next same rest = rest
or_next after rest = after

-- A pair of components from version 29 on, each a directory or not.
unfoldable pub compare_typed : Bool → Bool → Bytes → Bytes → Order → Order
compare_typed a_dir b_dir a b rest =
    if is_dot a && a_dir
    then before
    else if is_dot b && b_dir
    then after
    else if a_dir && not b_dir
    then after
    else if b_dir && not a_dir
    then before
    else if a_dir
    then or_next (compare_bytes (a ++ (b'/' ∷ [])) (b ++ (b'/' ∷ []))) rest
    else compare_bytes a b

-- The loop over the components.
unfoldable pub compare_components : ℕ → Bool → Bool → List Bytes → List Bytes → Order
unfolding compare_typed
compare_components version dir_a dir_b [] [] = same
compare_components version dir_a dir_b [] (b ∷ bs) = before
compare_components version dir_a dir_b (a ∷ as') [] = after
compare_components version dir_a dir_b (a ∷ as') (b ∷ bs) =
    let rest = compare_components version dir_a dir_b as' bs in
    if ltb version 29
    then or_next (compare_bytes (slash_if (goes_on as') a) (slash_if (goes_on bs) b)) rest
    else compare_typed (goes_on as' || dir_a) (goes_on bs || dir_b) a b rest

unfoldable pub flist_name_cmp : Bytes → Bool → Bytes → Bool → ℕ → Order
flist_name_cmp name_a dir_a name_b dir_b version =
    compare_components version dir_a dir_b (components name_a) (components name_b)

-- A negative result.
abbrev pub is_before : Order → Bool
is_before before = true
is_before same = false
is_before after = false

-- `mode.IsDir()` of a fs.FileMode.
abbrev pub is_dir_mode : ℕ → Bool
is_dir_mode mode = has_flag mode 31

unfoldable pub file_less : ℕ → FileEntry → FileEntry → Bool
file_less version x y =
    is_before (flist_name_cmp x.name (is_dir_mode x.mode) y.name (is_dir_mode y.mode) version)

unfoldable pub sort_flist : ℕ → List FileEntry → List FileEntry
sort_flist version files = sort (file_less version) files
