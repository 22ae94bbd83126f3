-- ===== src/Flist/Arrival/Kinds.antt =====
-- Which flags arrive as they were sent: all that the reader looks at, but for one case.
use go_rsyncfs.Base.{
  ℕ, ◌^◌, ◌<◌, ◌≡◌, ◌⊎◌, refl, sym, ap, ◌∙◌, bit_and, bit_or, Bool, true, false, Bool-cases, inl,
  inr, not, ◌&&◌, ◌||◌, leb, ◌==◌, arith,
}
use go_rsyncfs.Base.TestBit.{test_bit_pow}
use go_rsyncfs.Flist.Entry.{
  xmit_top_dir, xmit_extended_flags, xmit_long_name, has_flag, set_if, is_dir,
}
use go_rsyncfs.Flist.Flags.{has_flag-test_bit, has_flag-zero, has_flag-bit_or_pow, has_flag-set_if}
use go_rsyncfs.Flist.Arrival.{arrived, flag_nonzero, only_low}

-- How flags can arrive.
data Arrival (x mode version : ℕ) : Bool → ℕ → Type 0 where
  whole : {f : Bool} → 0 < x → Arrival x mode version f x
  marked :
      Arrival x mode version false
        (bit_or (set_if (x == 0 && not (is_dir mode)) xmit_top_dir x) (2 ^ xmit_extended_flags))
  plain :
      0 < set_if (x == 0 && not (is_dir mode)) xmit_top_dir x
      → Arrival x mode version false (set_if (x == 0 && not (is_dir mode)) xmit_top_dir x)
  sentinel : x ≡ 0 → Arrival x mode version true (2 ^ xmit_extended_flags)
  long :
      x ≡ 0 → version < 28 → is_dir mode ≡ true → Arrival x mode version false (2 ^ xmit_long_name)
  placeholder : x ≡ 0 → is_dir mode ≡ false → Arrival x mode version false (2 ^ xmit_top_dir)

arrived-Arrival :
    (x mode version : ℕ) (f : Bool) → Arrival x mode version f (arrived x mode version f)
unfolding arrived
arrived-Arrival x mode version true = elim (Bool-cases (x == 0)) [
  | inl clear ↦ rw clear (sentinel (ground arith))
  | inr some_flag ↦ rw some_flag (whole (ground arith))
]
arrived-Arrival x mode version false = elim (Bool-cases (leb 28 version)) [
  | inl new ↦
      let x' = set_if (x == 0 && not (is_dir mode)) xmit_top_dir x in
      elim (Bool-cases (not (bit_and x' 0xff00 == 0) || x' == 0)) [
        | inl two ↦ rw (new, two) marked
        | inr one ↦ rw (new, one) (plain (only_low x' one).1)
      ]
  | inr old ↦ elim (Bool-cases (x == 0)) [
    | inl clear ↦ elim (Bool-cases (is_dir mode)) [
      | inl dir ↦ rw (old, clear, dir) (long (ground arith) (ground arith) dir)
      | inr other ↦ rw (old, clear, other) (placeholder (ground arith) other)
    ]
    | inr some_flag ↦ rw (old, some_flag) (whole (ground arith))
  ]
]

nonzero-Arrival : {x mode version y : ℕ} {f : Bool} → Arrival x mode version f y → 0 < y
nonzero-Arrival (whole h) = h
nonzero-Arrival marked =
    flag_nonzero _ (has_flag-bit_or_pow _ xmit_extended_flags xmit_extended_flags)
nonzero-Arrival (plain h) = h
nonzero-Arrival (sentinel e) = omega arith
nonzero-Arrival (long e old dir) = omega arith
nonzero-Arrival (placeholder e other) = omega arith

pub arrived-ne-zero : (x mode version : ℕ) (f : Bool) → (arrived x mode version f == 0) ≡ false
arrived-ne-zero x mode version f =
    ground (arith, nonzero-Arrival (arrived-Arrival x mode version f))

clear_flag : (x k : ℕ) → x ≡ 0 → has_flag x k ≡ false
clear_flag x k e = ap (λ (t : ℕ). has_flag t k) e ∙ has_flag-zero k

-- A single flag other than `k`.
other_flag : (j k : ℕ) → (k == j) ≡ false → has_flag (2 ^ j) k ≡ false
other_flag j k e = has_flag-test_bit (2 ^ j) k ∙ test_bit_pow k j ∙ e

same_flag :
    {x mode version y : ℕ} {f : Bool} (k : ℕ)
    → (k == xmit_top_dir) ≡ false
    → (k == xmit_extended_flags) ≡ false
    → (k == xmit_long_name) ≡ false
    → Arrival x mode version f y
    → has_flag y k ≡ has_flag x k
same_flag k a b c (whole h) = refl
same_flag {x} k a b c marked =
    has_flag-bit_or_pow _ xmit_extended_flags k ∙ rw b (has_flag-set_if _ xmit_top_dir x k ∙ rw a)
same_flag {x} k a b c (plain h) = has_flag-set_if _ xmit_top_dir x k ∙ rw a
same_flag {x} k a b c (sentinel e) = other_flag xmit_extended_flags k b ∙ sym (clear_flag x k e)
same_flag {x} k a b c (long e old dir) = other_flag xmit_long_name k c ∙ sym (clear_flag x k e)
same_flag {x} k a b c (placeholder e other) = other_flag xmit_top_dir k a ∙ sym (clear_flag x k e)

unset :
    (mode x : ℕ)
    → is_dir mode ≡ true
    → has_flag (set_if (x == 0 && not (is_dir mode)) xmit_top_dir x) xmit_top_dir
      ≡ has_flag x xmit_top_dir
unset mode x dir = has_flag-set_if _ xmit_top_dir x xmit_top_dir ∙ rw dir (never (x == 0))
  where
    never : (c : Bool) → (c && false) || has_flag x xmit_top_dir ≡ has_flag x xmit_top_dir
    never true = refl
    never false = refl

same_top_dir :
    {x mode version y : ℕ} {f : Bool}
    → is_dir mode ≡ true
    → Arrival x mode version f y
    → has_flag y xmit_top_dir ≡ has_flag x xmit_top_dir
same_top_dir dir (whole h) = refl
same_top_dir {x} {mode} dir marked =
    has_flag-bit_or_pow _ xmit_extended_flags xmit_top_dir ∙ unset mode x dir
same_top_dir {x} {mode} dir (plain h) = unset mode x dir
same_top_dir {x} dir (sentinel e) =
    other_flag xmit_extended_flags xmit_top_dir refl ∙ sym (clear_flag x xmit_top_dir e)
same_top_dir {x} dir (long e old d) =
    other_flag xmit_long_name xmit_top_dir refl ∙ sym (clear_flag x xmit_top_dir e)
same_top_dir dir (placeholder e other) = cc

-- The one case in which the flag of a long name arrives though the name is short.
abbrev pub LongByMistake : ℕ → ℕ → ℕ → Bool → Type 0
LongByMistake x mode version f = (x ≡ 0) × ((version < 28) × ((f ≡ false) × (is_dir mode ≡ true)))

same_long_name :
    {x mode version y : ℕ} {f : Bool}
    → Arrival x mode version f y
    → (has_flag y xmit_long_name ≡ has_flag x xmit_long_name)
      ⊎ ((has_flag y xmit_long_name ≡ true) × LongByMistake x mode version f)
same_long_name (whole p) = inl refl
same_long_name {x} marked = inl (
    has_flag-bit_or_pow _ xmit_extended_flags xmit_long_name
    ∙ has_flag-set_if _ xmit_top_dir x xmit_long_name)
same_long_name {x} (plain p) = inl (has_flag-set_if _ xmit_top_dir x xmit_long_name)
same_long_name {x} (sentinel e) =
    inl (other_flag xmit_extended_flags xmit_long_name refl ∙ sym (clear_flag x xmit_long_name e))
same_long_name (long e old dir) =
    inr (has_flag-test_bit (2 ^ xmit_long_name) xmit_long_name, (e, (old, (refl, dir))))
same_long_name {x} (placeholder e other) =
    inl (other_flag xmit_top_dir xmit_long_name refl ∙ sym (clear_flag x xmit_long_name e))

module _ (x mode version : ℕ) (f : Bool) where
  pub arrived-same_flag :
      (k : ℕ)
      → (k == xmit_top_dir) ≡ false
      → (k == xmit_extended_flags) ≡ false
      → (k == xmit_long_name) ≡ false
      → has_flag (arrived x mode version f) k ≡ has_flag x k
  arrived-same_flag k a b c = same_flag k a b c (arrived-Arrival x mode version f)

  pub arrived-top_dir :
      is_dir mode && has_flag (arrived x mode version f) xmit_top_dir
      ≡ is_dir mode && has_flag x xmit_top_dir
  arrived-top_dir = elim (Bool-cases (is_dir mode)) [
    | inl dir ↦ rw dir (same_top_dir dir (arrived-Arrival x mode version f))
    | inr other ↦ rw other
  ]

  pub arrived-long_name :
      (has_flag (arrived x mode version f) xmit_long_name ≡ has_flag x xmit_long_name)
      ⊎ ((has_flag (arrived x mode version f) xmit_long_name ≡ true)
          × LongByMistake x mode version f)
  arrived-long_name = same_long_name (arrived-Arrival x mode version f)
