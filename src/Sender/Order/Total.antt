-- ===== src/Sender/Order/Total.antt =====
-- flistNameCmp puts two names the same way round from both sides.
use go_rsyncfs.Base.{
  ℕ, ◌≡◌, refl, sym, Bool, true, false, Bool-cases, inl, inr, ◌||◌, List, [], ◌∷◌, ◌++◌, Bytes, All,
  ltb, arith,
}
use go_rsyncfs.Sender.FileList.{is_dot}
use go_rsyncfs.Sender.Order.{
  Order, before, same, after, compare_bytes, components, goes_on, slash_if, or_next, compare_typed,
  compare_components, flist_name_cmp, is_before,
}

-- The other way round.
unfoldable pub reversed : Order → Order
reversed before = after
reversed same = same
reversed after = before

reversed-or_next : (c d : Order) → reversed (or_next c d) ≡ or_next (reversed c) (reversed d)
unfolding reversed
reversed-or_next before d = refl
reversed-or_next same d = refl
reversed-or_next after d = refl

compare_bytes-reversed : (x y : Bytes) → compare_bytes y x ≡ reversed (compare_bytes x y)
unfolding compare_bytes reversed
compare_bytes-reversed [] [] = refl
compare_bytes-reversed [] (y ∷ ys) = refl
compare_bytes-reversed (x ∷ xs) [] = refl
compare_bytes-reversed (x ∷ xs) (y ∷ ys) = elim (Bool-cases (ltb x y)) [
  | inl less ↦ let not_above : ltb y x ≡ false = ground arith in rw (less, not_above) refl
  | inr not_less ↦ elim (Bool-cases (ltb y x)) [
    | inl above ↦ rw (not_less, above) refl
    | inr equal ↦ rw (not_less, equal) (compare_bytes-reversed xs ys)
  ]
]

-- A name without the component ".".
abbrev pub HasNoDot : List Bytes → Type 0
HasNoDot cs = All (λ (c : Bytes). is_dot c ≡ false) cs

compare_typed-reversed :
    (a_dir b_dir : Bool) (a b : Bytes) (rest : Order)
    → is_dot a ≡ false
    → compare_typed b_dir a_dir b a (reversed rest) ≡ reversed (compare_typed a_dir b_dir a b rest)
unfolding compare_typed reversed
compare_typed-reversed true true a b rest no_dot = elim (Bool-cases (is_dot b)) [
  | inl dot ↦ rw (no_dot, dot) refl
  | inr plain ↦
      rw (no_dot, plain, compare_bytes-reversed (a ++ (b'/' ∷ [])) (b ++ (b'/' ∷ [])))
        (sym (reversed-or_next (compare_bytes (a ++ (b'/' ∷ [])) (b ++ (b'/' ∷ []))) rest))
]
compare_typed-reversed true false a b rest no_dot = elim (Bool-cases (is_dot b)) [
  | inl dot ↦ rw (no_dot, dot) refl
  | inr plain ↦ rw (no_dot, plain) refl
]
compare_typed-reversed false true a b rest no_dot = elim (Bool-cases (is_dot b)) [
  | inl dot ↦ rw (no_dot, dot) refl
  | inr plain ↦ rw (no_dot, plain) refl
]
compare_typed-reversed false false a b rest no_dot = elim (Bool-cases (is_dot b)) [
  | inl dot ↦ rw (no_dot, dot) (compare_bytes-reversed a b)
  | inr plain ↦ rw (no_dot, plain) (compare_bytes-reversed a b)
]

compare_components-reversed :
    (version : ℕ) (dir_a dir_b : Bool) (as' bs : List Bytes)
    → HasNoDot as'
    → compare_components version dir_b dir_a bs as'
      ≡ reversed (compare_components version dir_a dir_b as' bs)
unfolding compare_components reversed
compare_components-reversed version dir_a dir_b [] [] v = refl
compare_components-reversed version dir_a dir_b [] (b ∷ bs) v = refl
compare_components-reversed version dir_a dir_b (a ∷ as') [] v = refl
compare_components-reversed version dir_a dir_b (a ∷ as') (b ∷ bs) (no_dot, v) =
    let x = slash_if (goes_on as') a in
    let y = slash_if (goes_on bs) b in
    let rest = compare_components version dir_a dir_b as' bs in
    elim (Bool-cases (ltb version 29)) [
      | inl old ↦
          rw
            (
              old,
              compare_components-reversed version dir_a dir_b as' bs v,
              compare_bytes-reversed x y,
            )
            (sym (reversed-or_next (compare_bytes x y) rest))
      | inr new ↦
          rw (new, compare_components-reversed version dir_a dir_b as' bs v)
            (compare_typed-reversed (goes_on as' || dir_a) (goes_on bs || dir_b) a b rest no_dot)
    ]

-- The comparison of two names, the first without a component ".", changes its sign when they change
-- places.
pub flist_name_cmp-reversed :
    (name_a : Bytes) (dir_a : Bool) (name_b : Bytes) (dir_b : Bool) (version : ℕ)
    → HasNoDot (components name_a)
    → flist_name_cmp name_b dir_b name_a dir_a version
      ≡ reversed (flist_name_cmp name_a dir_a name_b dir_b version)
unfolding flist_name_cmp
flist_name_cmp-reversed name_a dir_a name_b dir_b version v =
    compare_components-reversed version dir_a dir_b (components name_a) (components name_b) v

pub before-reversed : (c : Order) → is_before c ≡ true → is_before (reversed c) ≡ false
unfolding reversed
before-reversed before h = refl
before-reversed same h = refl
before-reversed after h = cc

pub reversed_twice : (c : Order) → is_before (reversed c) ≡ true → is_before c ≡ false
unfolding reversed
reversed_twice before h = sym h
reversed_twice same h = refl
reversed_twice after h = refl
