-- ===== src/Args/Flags.antt =====
-- Which bits and flags come out of the argument list.
use go_rsyncfs.Base.{
  ℕ, zero, suc, ◌^◌, ◌≤◌, ◌<◌, ◌≡◌, refl, ◌∙◌, List, [], ◌∷◌, Bytes, Option, none, some, ◌==◌,
  arith, Bool, false, ◌&&◌, ◌||◌, get_or, ltb, ltb→lt, Bool-cases, inl, inr,
}
use go_rsyncfs.Base.TestBit.{test_bit, test_bit-bit_or, test_bit_pow, flag_is_set, test_bit-zero}
use go_rsyncfs.Args.{
  PreserveFlags, is_short_option, preserve_byte, preserve_bytes, preserve_args,
  extract_preserve_flags, compat_bit, add_flag, resolve_from, resolve_compat_flags,
}

abbrev pub contains : ℕ → Bytes → Bool
contains c [] = false
contains c (b ∷ s) = (b == c) || contains c s

-- The letter of each bit, by bit.
abbrev pub letters : Bytes
letters = b'i' ∷ b'L' ∷ b's' ∷ b'f' ∷ b'x' ∷ b'C' ∷ b'I' ∷ b'v' ∷ b'u' ∷ []

abbrev names : ℕ → Option ℕ → Bool
names k none = false
names k (some j) = k == j

letter_of : (k ch : ℕ) → k < 9 → names k (compat_bit ch) ≡ (ch == get_or letters k 0)
unfolding compat_bit
letter_of zero ch h = ground arith
letter_of (suc zero) ch h = ground arith
letter_of (suc (suc zero)) ch h = ground arith
letter_of (suc (suc (suc zero))) ch h = ground arith
letter_of (suc (suc (suc (suc zero)))) ch h = ground arith
letter_of (suc (suc (suc (suc (suc zero))))) ch h = ground arith
letter_of (suc (suc (suc (suc (suc (suc zero)))))) ch h = ground arith
letter_of (suc (suc (suc (suc (suc (suc (suc zero))))))) ch h = ground arith
letter_of (suc (suc (suc (suc (suc (suc (suc (suc zero)))))))) ch h = ground arith
letter_of (suc (suc (suc (suc (suc (suc (suc (suc (suc k))))))))) ch h = absurd (omega arith)

no_letter : (k ch : ℕ) → 9 ≤ k → names k (compat_bit ch) ≡ false
unfolding compat_bit
no_letter k ch h = ground arith

test_bit-add_flag :
    (k caps flags : ℕ) (o : Option ℕ)
    → test_bit k (add_flag caps flags o) ≡ test_bit k flags || (test_bit k caps && names k o)
unfolding add_flag
test_bit-add_flag k caps flags none = ground arith
test_bit-add_flag k caps flags (some j) =
    rw (flag_is_set j caps) (ground (arith, test_bit-bit_or k flags (2 ^ j), test_bit_pow k j))

abbrev pub any_short : ℕ → List Bytes → Bool
any_short c [] = false
any_short c (arg ∷ args) = (is_short_option arg && contains c arg) || any_short c args

resolve_from-exact :
    (k caps flags : ℕ) (info : Bytes)
    → k < 9
    → test_bit k (resolve_from caps flags info)
      ≡ test_bit k flags || (test_bit k caps && contains (get_or letters k 0) info)
unfolding resolve_from
resolve_from-exact k caps flags [] h = ground arith
resolve_from-exact k caps flags (ch ∷ s) h =
    resolve_from-exact k caps (add_flag caps flags (compat_bit ch)) s h
    ∙ rw (test_bit-add_flag k caps flags (compat_bit ch), letter_of k ch h)
        (bool_lem (test_bit k flags) (test_bit k caps) _ _)
  where
    bool_lem : (a b c d : Bool) → a || (b && c) || (b && d) ≡ a || (b && (c || d))
    bool_lem a b c d = ground arith

resolve_from-no_other :
    (k caps flags : ℕ) (info : Bytes)
    → 9 ≤ k
    → test_bit k (resolve_from caps flags info) ≡ test_bit k flags
unfolding resolve_from
resolve_from-no_other k caps flags [] h = refl
resolve_from-no_other k caps flags (ch ∷ s) h =
    resolve_from-no_other k caps (add_flag caps flags (compat_bit ch)) s h
    ∙ ground (arith, test_bit-add_flag k caps flags (compat_bit ch), no_letter k ch h)

-- Each of the nine compat bits is set exactly when the server has it and the client's string
-- holds its letter; no other bit is set.
pub resolve_compat_flags-exact :
    (k caps : ℕ) (info : Bytes)
    → test_bit k (resolve_compat_flags caps info)
      ≡ ltb k 9 && (test_bit k caps && contains (get_or letters k 0) info)
unfolding resolve_compat_flags
resolve_compat_flags-exact k caps info = elim (Bool-cases (ltb k 9)) [
  | inl known ↦
      rw known (resolve_from-exact k caps 0 info (ltb→lt k 9 known) ∙ rw (test_bit-zero k))
  | inr unknown ↦ rw unknown (resolve_from-no_other k caps 0 info (ground arith) ∙ test_bit-zero k)
]

or_assoc : (a b c : Bool) → a || b || c ≡ a || (b || c)
or_assoc a b c = ground arith

preserve_byte-exact :
    (p : PreserveFlags) (ch : ℕ)
    → ((preserve_byte p ch).uid ≡ p.uid || (ch == b'o'))
      × ((preserve_byte p ch).gid ≡ p.gid || (ch == b'g'))
      × ((preserve_byte p ch).hlinks ≡ p.hlinks || (ch == b'H'))
unfolding preserve_byte
preserve_byte-exact p ch = ground arith

preserve_bytes-exact :
    (p : PreserveFlags) (s : Bytes)
    → ((preserve_bytes p s).uid ≡ p.uid || contains b'o' s)
      × ((preserve_bytes p s).gid ≡ p.gid || contains b'g' s)
      × ((preserve_bytes p s).hlinks ≡ p.hlinks || contains b'H' s)
unfolding preserve_bytes
preserve_bytes-exact p [] = ground arith
preserve_bytes-exact p (ch ∷ s) =
    let (u, g, l) = preserve_bytes-exact (preserve_byte p ch) s in
    let (u', g', l') = preserve_byte-exact p ch in
    (
      u ∙ rw u' (or_assoc p.uid _ _),
      g ∙ rw g' (or_assoc p.gid _ _),
      l ∙ rw l' (or_assoc p.hlinks _ _),
    )

preserve_args-exact :
    (p : PreserveFlags) (args : List Bytes)
    → ((preserve_args p args).uid ≡ p.uid || any_short b'o' args)
      × ((preserve_args p args).gid ≡ p.gid || any_short b'g' args)
      × ((preserve_args p args).hlinks ≡ p.hlinks || any_short b'H' args)
unfolding preserve_args
preserve_args-exact p [] = ground arith
preserve_args-exact p (arg ∷ args) = elim (Bool-cases (is_short_option arg)) [
  | inl short ↦
      let (u, g, l) = preserve_args-exact (preserve_bytes p arg) args in
      let (u', g', l') = preserve_bytes-exact p arg in
      rw (short, preserve_args)
        (
          u ∙ rw u' (or_assoc p.uid _ _),
          g ∙ rw g' (or_assoc p.gid _ _),
          l ∙ rw l' (or_assoc p.hlinks _ _),
        )
  | inr other ↦ rw (other, preserve_args) (preserve_args-exact p args)
]

-- Each flag is set exactly when its letter stands in some short-option argument.
pub extract_preserve_flags-exact :
    (args : List Bytes)
    → ((extract_preserve_flags args).uid ≡ any_short b'o' args)
      × ((extract_preserve_flags args).gid ≡ any_short b'g' args)
      × ((extract_preserve_flags args).hlinks ≡ any_short b'H' args)
unfolding extract_preserve_flags
extract_preserve_flags-exact args =
    preserve_args-exact (record { uid = false; gid = false; hlinks = false }) args
