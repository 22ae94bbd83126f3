-- ===== src/Client/Entries.antt =====
-- The client's look at a file list (client-open.go): findFlistEntry, sortFlistEntries and the choice
-- of an entry in withEntry.
pub mod Ndx
pub mod Examples
use go_rsyncfs.Base.{
  ℕ, zero, suc, ◌+◌, ◌%◌, ◌^◌, Bool, true, false, ◌&&◌, List, [], ◌∷◌, Option, none, some, Bytes,
  ◌==◌, if◌then◌else◌,
}
use go_rsyncfs.Base.Sorting.{sort}
use go_rsyncfs.Flist.Entry.{is_dir, Entry}
use go_rsyncfs.Sender.Order.{flist_name_cmp, is_before}

-- The `==` of strings.
unfoldable pub same_bytes : Bytes → Bytes → Bool
same_bytes [] [] = true
same_bytes [] (y ∷ ys) = false
same_bytes (x ∷ xs) [] = false
same_bytes (x ∷ xs) (y ∷ ys) = x == y && same_bytes xs ys

-- The entry with its index, or none for -1.
unfoldable pub find_from : ℕ → List Entry → Bytes → Option (Entry × ℕ)
find_from i [] name = none
find_from i (e ∷ es) name =
    let later = find_from (i + 1) es name in if same_bytes e.name name then some (e, i) else later

unfoldable pub find_flist_entry : List Entry → Bytes → Option (Entry × ℕ)
unfolding find_from
find_flist_entry entries name = find_from 0 entries name

unfoldable pub entry_less : ℕ → Entry → Entry → Bool
entry_less version x y =
    is_before (flist_name_cmp x.name (is_dir x.mode) y.name (is_dir y.mode) version)

-- A map from names as the list of its assignments; an index is cut to an int32.
unfoldable pub assign_from : ℕ → List Entry → List (Bytes × ℕ)
assign_from i [] = []
assign_from i (e ∷ es) = (e.name, i % 2 ^ 32) ∷ assign_from (i + 1) es

unfoldable pub sort_flist_entries : List Entry → ℕ → List (Bytes × ℕ)
unfolding assign_from
sort_flist_entries entries version = assign_from 0 (sort (entry_less version) entries)

-- The last assignment to a name, and 0 for a name that has none.
unfoldable pub last_assigned : List (Bytes × ℕ) → Bytes → Option ℕ
last_assigned [] name = none
last_assigned ((n, i) ∷ rest) name = elim (last_assigned rest name) [
  | some j ↦ some j
  | none ↦ if same_bytes n name then some i else none
]

unfoldable pub ndx_of : List (Bytes × ℕ) → Bytes → ℕ
unfolding last_assigned
ndx_of m name = elim (last_assigned m name) [ some i ↦ i | none ↦ 0 ]

-- The entry that withEntry hands on, with the index that it sends for it.
unfoldable pub chosen_entry : List Entry → Bytes → ℕ → Option (Entry × ℕ)
chosen_entry entries name version = elim (find_flist_entry entries name) [
  | some (e, i) ↦ some (e, ndx_of (sort_flist_entries entries version) e.name)
  | none ↦ none
]
