-- ===== src/Flist/Name.antt =====
-- The name of an entry: a common prefix with the last one, by its length, and the rest.
use go_rsyncfs.Base.{
  ℕ, zero, suc, ◌+◌, ◌-◌, ◌%◌, ◌^◌, ◌≤◌, ◌<◌, ◌≡◌, ◌⊎◌, refl, ap, ◌∙◌, Bool, true, false,
  Bool-cases, inl, inr, ◌||◌, [], ◌∷◌, ◌++◌, append_assoc, Bytes, length, length-drop, take, drop,
  take-append-drop, ltb, ◌==◌, ==_iff, if◌then◌else◌, arith,
}
use go_rsyncfs.Io.{ok, bind, ◌>>=◌, return, read_byte}
use go_rsyncfs.Io.Laws.{read_full-append}
use go_rsyncfs.Wire.Fixed.{is_neg32}
use go_rsyncfs.Wire.Var.{write_varint, read_varint}
use go_rsyncfs.Wire.Var.RoundTrip.{read_varint-write_varint, read_varint_small}
use go_rsyncfs.Flist.Entry.{max_path_len, common_prefix, common_prefix_len}
use go_rsyncfs.Flist.Write.{write_name}
use go_rsyncfs.Flist.Read.{join_name, read_suffix, read_name}

common_prefix-take :
    (m : ℕ) (a b : Bytes) → take (common_prefix m a b) a ≡ take (common_prefix m a b) b
unfolding common_prefix
common_prefix-take zero a b = refl
common_prefix-take (suc m) [] b = refl
common_prefix-take (suc m) (x ∷ a) [] = refl
common_prefix-take (suc m) (x ∷ a) (y ∷ b) = elim (Bool-cases (x == y)) [
  | inl same ↦ rw same (
      ap (λ (t : ℕ). t ∷ take (common_prefix m a b) a) ((==_iff x y).0 same)
      ∙ ap (◌∷◌ y) (common_prefix-take m a b))
  | inr other ↦ rw other
]

common_prefix_bounds :
    (m : ℕ) (a b : Bytes)
    → (common_prefix m a b ≤ m)
      × ((common_prefix m a b ≤ length a) × (common_prefix m a b ≤ length b))
unfolding common_prefix
common_prefix_bounds zero a b = omega arith
common_prefix_bounds (suc m) [] b = omega arith
common_prefix_bounds (suc m) (x ∷ a) [] = omega arith
common_prefix_bounds (suc m) (x ∷ a) (y ∷ b) = elim (Bool-cases (x == y)) [
  | inl same ↦ rw same (omega (arith, common_prefix_bounds m a b))
  | inr other ↦ rw other (omega arith)
]

module _ (last name rest : Bytes) where
  abbrev l1 : ℕ
  l1 = common_prefix_len last name

  abbrev l2 : ℕ
  l2 = length name - l1

  l1_bounds : (l1 ≤ 255) × ((l1 ≤ length last) × (l1 ≤ length name))
  unfolding common_prefix_len
  l1_bounds = common_prefix_bounds 255 last name

  joined : join_name last l1 (drop l1 name) rest ≡ ok name rest
  unfolding join_name common_prefix_len
  joined =
      let within : ltb (length last) l1 ≡ false = ground (arith, l1_bounds) in
      rw within (
        ap (λ (t : Bytes). ok (t ++ drop l1 name) rest) (common_prefix-take 255 last name)
        ∙ ap (λ (t : Bytes). ok t rest) (take-append-drop l1 name))

  suffix_read :
      length name ≤ max_path_len → read_suffix l1 l2 (drop l1 name ++ rest) ≡ ok (drop l1 name) rest
  unfolding read_suffix
  suffix_read h =
      let fits : (is_neg32 l2 || ltb max_path_len (l1 + l2)) ≡ false = ground (arith, l1_bounds) in
      rw fits (read_full-append l2 (drop l1 name) rest (length-drop l1 name))

  prefix_read :
      (s : Bytes)
      → (if ltb 0 l1 then read_byte else return 0) ((if ltb 0 l1 then (l1 % 256) ∷ [] else []) ++ s)
        ≡ ok l1 s
  unfolding read_byte
  prefix_read s = elim (Bool-cases (ltb 0 l1)) [
    | inl some_prefix ↦ rw some_prefix (ap (λ (x : ℕ). ok x s) (omega (arith, l1_bounds)))
    | inr none_common ↦ rw none_common (ap (λ (x : ℕ). ok x s) (ground arith))
  ]

  length_read :
      (long : Bool) (s : Bytes)
      → length name ≤ max_path_len
      → (long ≡ ltb 255 l2) ⊎ ((long ≡ true) × (l2 < 128))
      → (if long then read_varint else read_byte)
          ((if ltb 255 l2 then write_varint (l2 % 2 ^ 32) else (l2 % 256) ∷ []) ++ s)
        ≡ ok l2 s
  unfolding read_byte
  length_read long s h (inl e) = rw e (elim (Bool-cases (ltb 255 l2)) [
    | inl big ↦ rw big (
        read_varint-write_varint (l2 % 2 ^ 32) s (omega arith)
        ∙ ap (λ (x : ℕ). ok x s) (omega arith))
    | inr small ↦ rw small (ap (λ (x : ℕ). ok x s) (ground arith))
  ])
  length_read long s h (inr (e, small)) =
      let one_byte : ltb 255 l2 ≡ false = ground arith in
      rw (e, one_byte)
        (read_varint_small (l2 % 256) s (omega arith) ∙ ap (λ (x : ℕ). ok x s) (omega arith))

  -- A name that fits is read back, also where the flag of a long name is set for a suffix shorter
  -- than 0x80 bytes.
  pub read_name-write_name :
      (long : Bool)
      → length name ≤ max_path_len
      → (long ≡ ltb 255 l2) ⊎ ((long ≡ true) × (l2 < 128))
      → read_name last (ltb 0 l1) long (write_name (ltb 0 l1) (ltb 255 l2) l1 name ++ rest)
        ≡ ok name rest
  unfolding read_name write_name
  read_name-write_name long h which =
      let len = if ltb 255 l2 then write_varint (l2 % 2 ^ 32) else (l2 % 256) ∷ [] in
      let start = if ltb 0 l1 then (l1 % 256) ∷ [] else [] in
      rw (append_assoc start (len ++ drop l1 name) rest, append_assoc len (drop l1 name) rest)
        (ap
            (λ o. bind o (λ a. (if long then read_varint else read_byte) >>= λ b.
              read_suffix a b >>= λ c. join_name last a c))
            (prefix_read (len ++ (drop l1 name ++ rest)))
          ∙ ap (λ o. bind o (λ b. read_suffix l1 b >>= λ c. join_name last l1 c))
              (length_read long (drop l1 name ++ rest) h which)
          ∙ ap (λ o. bind o (λ c. join_name last l1 c)) (suffix_read h)
          ∙ joined)
