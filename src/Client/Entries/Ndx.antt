-- ===== src/Client/Entries/Ndx.antt =====
-- The index that the client sends for a name is the index of that file in the sender's list.
use go_rsyncfs.Base.{
  ℕ, ◌+◌, ◌%◌, ◌^◌, ◌<◌, ◌≡◌, ◌⊎◌, refl, ap, ◌∙◌, bit_and, bit_or, Bool, true, false, Bool-cases,
  inl, inr, not, ◌&&◌, List, [], ◌∷◌, ◌++◌, map, none, some, Bytes, length, All, ◌==◌, arith,
}
use go_rsyncfs.Base.Bits.{bit_and_mask, holds_below, holds_below-at}
use go_rsyncfs.Base.Sorting.{
  IsSorted, Against, IsAsymmetric, IsPairwise, sort-IsSorted, sort-of_IsSorted, sort-IsPairwise,
}
use go_rsyncfs.Flist.Entry.{has_flag, file_type, is_dir}
use go_rsyncfs.Sender.FileList.{FileEntry, mode_to_wire, mode_type}
use go_rsyncfs.Sender.Order.{components, is_dir_mode, file_less, sort_flist}
use go_rsyncfs.Sender.Order.Total.{
  HasNoDot, flist_name_cmp-reversed, before-reversed, reversed_twice,
}
use go_rsyncfs.Client.FileList.Delivery.{delivered}
use go_rsyncfs.Client.Entries.{
  same_bytes, find_from, find_flist_entry, entry_less, assign_from, sort_flist_entries,
  last_assigned, ndx_of, chosen_entry,
}

-- Directories of the wire are those of the walk.
dir_perm : ℕ → Bool
dir_perm perm =
    is_dir (bit_or perm 0x4000)
    && (not (is_dir (bit_or perm 0xa000)) && not (is_dir (bit_or perm 0x8000)))

dir_table : holds_below dir_perm 512 ≡ true
unfolding holds_below dir_perm is_dir file_type
dir_table = refl

is_dir-mode_to_wire : (mode : ℕ) → is_dir (mode_to_wire mode) ≡ is_dir_mode mode
unfolding mode_to_wire dir_perm
is_dir-mode_to_wire mode =
    let low : bit_and mode 0x1ff < 512 = omega (arith, bit_and_mask 9 mode) in
    let table : dir_perm (bit_and mode 0x1ff) ≡ true =
      holds_below-at dir_perm 512 (bit_and mode 0x1ff) dir_table low in
    elim (Bool-cases (has_flag mode 31)) [
      | inl a ↦ rw a (ground arith)
      | inr b ↦ elim (Bool-cases (bit_and mode mode_type == 2 ^ 27)) [
        | inl c ↦ rw (b, c) (ground arith)
        | inr d ↦ rw (b, d) (ground arith)
      ]
    ]

entry_less-delivered :
    (version : ℕ) (x y : FileEntry)
    → entry_less version (delivered version x) (delivered version y) ≡ file_less version x y
unfolding entry_less file_less delivered
entry_less-delivered version x y = rw (is_dir-mode_to_wire x.mode, is_dir-mode_to_wire y.mode)

delivered-IsSorted :
    (version : ℕ) (files : List FileEntry)
    → IsSorted (file_less version) files
    → IsSorted (entry_less version) (map (delivered version) files)
delivered-IsSorted version [] s = tt
delivered-IsSorted version (x ∷ []) s = tt
delivered-IsSorted version (x ∷ y ∷ files) (h, s) =
    (entry_less-delivered version y x ∙ h, delivered-IsSorted version (y ∷ files) s)

-- Two files of different names.
abbrev pub Differ : FileEntry → FileEntry → Type 0
Differ x y = same_bytes x.name y.name ≡ false

-- A path as fs.WalkDir gives it: "." for the root, else one with no component ".".
abbrev pub IsWalked : FileEntry → Type 0
IsWalked e = (e.name ≡ b'.' ∷ []) ⊎ HasNoDot (components e.name)

Differ-Against :
    (version : ℕ) (x y : FileEntry)
    → IsWalked x
    → IsWalked y
    → Differ x y
    → Against (file_less version) x y
unfolding file_less same_bytes
Differ-Against version x y (inl p) (inl q) d h = cc
Differ-Against version x y (inr v) w d h = reversed_twice _ (
    rw (flist_name_cmp-reversed x.name (is_dir_mode x.mode) y.name (is_dir_mode y.mode) version v)
      at h)
Differ-Against version x y (inl p) (inr w) d h =
    rw (flist_name_cmp-reversed y.name (is_dir_mode y.mode) x.name (is_dir_mode x.mode) version w)
      (before-reversed _ h)

walked-IsAsymmetric :
    (version : ℕ) (files : List FileEntry)
    → All IsWalked files
    → IsPairwise Differ files
    → IsAsymmetric (file_less version) files
walked-IsAsymmetric version [] ws ds = tt
walked-IsAsymmetric version (x ∷ files) (w, ws) (d, ds) =
    (against files ws d, walked-IsAsymmetric version files ws ds)
  where
    against :
        (ys : List FileEntry)
        → All IsWalked ys
        → All (Differ x) ys
        → All (Against (file_less version) x) ys
    against [] ws d = tt
    against (y ∷ ys) (v, ws) (d, ds) = (Differ-Against version x y w v d, against ys ws ds)

same_bytes-same : (x : Bytes) → same_bytes x x ≡ true
unfolding same_bytes
same_bytes-same [] = refl
same_bytes-same (b ∷ x) =
    let same : (b == b) ≡ true = ground arith in rw (same, same_bytes-same x) refl

same_bytes-flip : (x y : Bytes) → same_bytes x y ≡ same_bytes y x
unfolding same_bytes
same_bytes-flip [] [] = refl
same_bytes-flip [] (c ∷ y) = refl
same_bytes-flip (b ∷ x) [] = refl
same_bytes-flip (b ∷ x) (c ∷ y) =
    let flip : (b == c) ≡ (c == b) = ground arith in rw (flip, same_bytes-flip x y) refl

-- In a list with `e` behind `ps`.
module _ (version : ℕ) (e : FileEntry) (qs : List FileEntry) where
  behind : (x : FileEntry) (ps : List FileEntry) → All (Differ x) (ps ++ (e ∷ qs)) → Differ x e
  behind x [] (d, ds) = d
  behind x (p ∷ ps) (d, ds) = behind x ps ds

  find-at :
      (k : ℕ) (ps : List FileEntry)
      → IsPairwise Differ (ps ++ (e ∷ qs))
      → find_from k (map (delivered version) (ps ++ (e ∷ qs))) e.name
        ≡ some (delivered version e, k + length ps)
  unfolding find_from delivered
  find-at k [] d =
      rw (same_bytes-same e.name) (ap (λ i. some (delivered version e, i)) (omega arith))
  find-at k (p ∷ ps) (d, ds) =
      rw (behind p ps d, find-at (k + 1) ps ds)
        (ap (λ i. some (delivered version e, i)) (omega arith))

  none_assigned :
      (k : ℕ) (ys : List FileEntry)
      → All (Differ e) ys
      → last_assigned (assign_from k (map (delivered version) ys)) e.name ≡ none
  unfolding last_assigned assign_from delivered
  none_assigned k [] d = refl
  none_assigned k (y ∷ ys) (d, ds) =
      rw (none_assigned (k + 1) ys ds, same_bytes-flip y.name e.name, d) refl

  assigned-at :
      (k : ℕ) (ps : List FileEntry)
      → IsPairwise Differ (ps ++ (e ∷ qs))
      → last_assigned (assign_from k (map (delivered version) (ps ++ (e ∷ qs)))) e.name
        ≡ some ((k + length ps) % 2 ^ 32)
  unfolding last_assigned assign_from delivered
  assigned-at k [] (d, ds) =
      rw (none_assigned (k + 1) qs d, same_bytes-same e.name)
        (ap (λ (i : ℕ). some (i % 2 ^ 32)) (omega arith))
  assigned-at k (p ∷ ps) (d, ds) =
      rw (assigned-at (k + 1) ps ds) (ap (λ (i : ℕ). some (i % 2 ^ 32)) (omega arith))

  chosen-at :
      (ps : List FileEntry)
      → IsSorted (file_less version) (ps ++ (e ∷ qs))
      → IsPairwise Differ (ps ++ (e ∷ qs))
      → length ps < 2 ^ 31
      → chosen_entry (map (delivered version) (ps ++ (e ∷ qs))) e.name version
        ≡ some (delivered version e, length ps)
  unfolding chosen_entry find_flist_entry sort_flist_entries ndx_of delivered
  chosen-at ps sorted apart fits =
      rw
        (
          chosen_entry,
          find_flist_entry,
          find-at 0 ps apart,
          sort_flist_entries,
          sort-of_IsSorted (entry_less version) (map (delivered version) (ps ++ (e ∷ qs)))
              (delivered-IsSorted version (ps ++ (e ∷ qs)) sorted),
          ndx_of,
          assigned-at 0 ps apart,
        )
        (ap (λ i. some (delivered version e, i)) (omega arith))

-- withEntry finds each walked file by its name in the list that the sender sorted and sent, with
-- the index that it has there, if no two names are the same and the index fits an int32.
pub chosen_entry-sort_flist :
    (version : ℕ) (walked ps qs : List FileEntry) (e : FileEntry)
    → All IsWalked walked
    → IsPairwise Differ walked
    → sort_flist version walked ≡ ps ++ (e ∷ qs)
    → length ps < 2 ^ 31
    → chosen_entry (map (delivered version) (sort_flist version walked)) e.name version
      ≡ some (delivered version e, length ps)
unfolding sort_flist
chosen_entry-sort_flist version walked ps qs e ws ds split fits =
    let less = file_less version in
    let sorted = sort-IsSorted less walked (walked-IsAsymmetric version walked ws ds) in
    let apart =
      sort-IsPairwise less Differ (λ x y d. same_bytes-flip y.name x.name ∙ d) walked ds in
    rw split (chosen-at version e qs ps (rw split at sorted) (rw split at apart) fits)
