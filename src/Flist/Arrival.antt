-- ===== src/Flist/Arrival.antt =====
-- The flags as they arrive: writeXflags sets a flag of no meaning where all are clear, or marks the
-- second byte, and readXflags returns the flags with it.
pub mod Kinds
use go_rsyncfs.Base.{
  ℕ, zero, suc, ◌+◌, ◌-◌, ◌*◌, ◌/◌, ◌%◌, ◌^◌, ◌≤◌, ◌<◌, ◌≡◌, ◌≢◌, ◌⊎◌, refl, sym, ap, ◌∙◌, bit_and,
  bit_or, Bool, true, false, Bool-cases, inl, inr, not, ◌&&◌, ◌||◌, [], ◌∷◌, ◌++◌, Bytes, leb, ltb,
  ◌==◌, if◌then◌else◌, ==_iff, arith,
}
use go_rsyncfs.Base.Bits.{and_step, bit_and-zero, bit_or_shifted, bit_and_mask}
use go_rsyncfs.Base.TestBit.{test_bit, test_bit_pow}
use go_rsyncfs.Io.{ok, bind, read_byte}
use go_rsyncfs.Wire.Fixed.{write_uint16}
use go_rsyncfs.Wire.Var.{write_varint, read_varint}
use go_rsyncfs.Wire.Var.RoundTrip.{read_varint-write_varint}
use go_rsyncfs.Flist.Entry.{
  xmit_top_dir, xmit_extended_flags, xmit_long_name, has_flag, set_if, is_dir,
}
use go_rsyncfs.Flist.Flags.{
  has_flag-test_bit, has_flag-zero, has_flag-bit_or_pow, has_flag-set_if, set_if-lt, bit_or-lt,
}
use go_rsyncfs.Flist.Write.{write_xflags}
use go_rsyncfs.Flist.Read.{read_xflags}

-- What readXflags returns.
unfoldable pub arrived : ℕ → ℕ → ℕ → Bool → ℕ
arrived x mode version varint_flist_flags =
    if varint_flist_flags
    then (if x == 0 then 2 ^ xmit_extended_flags else x)
    else if leb 28 version
    then (let x' = set_if (x == 0 && not (is_dir mode)) xmit_top_dir x in
        if not (bit_and x' 0xff00 == 0) || x' == 0 then bit_or x' (2 ^ xmit_extended_flags) else x')
    else if x == 0
    then (if is_dir mode then 2 ^ xmit_long_name else 2 ^ xmit_top_dir)
    else x

even_mask : (a m : ℕ) → bit_and a (m * 2) ≡ bit_and (a / 2) m * 2
even_mask a m = and_step a (m * 2) ∙ omega (arith, ap (bit_and (a / 2)) half)
  where
    half : m * 2 / 2 ≡ m
    half = omega arith

high_byte : (x : ℕ) → bit_and x 0xff00 ≡ bit_and (x / 256) 0xff * 256
high_byte x = omega (
  arith,
  even_mask x 0x7f80,
  even_mask (x / 2) 0x3fc0,
  even_mask (x / 2 / 2) 0x1fe0,
  even_mask (x / 2 / 2 / 2) 0xff0,
  even_mask (x / 2 / 2 / 2 / 2) 0x7f8,
  even_mask (x / 2 / 2 / 2 / 2 / 2) 0x3fc,
  even_mask (x / 2 / 2 / 2 / 2 / 2 / 2) 0x1fe,
  even_mask (x / 2 / 2 / 2 / 2 / 2 / 2 / 2) 0xff,
  ap (λ (t : ℕ). bit_and t 0xff) eighth,
)
  where
    eighth : x / 2 / 2 / 2 / 2 / 2 / 2 / 2 / 2 ≡ x / 256
    eighth = omega arith

one_byte : (x : ℕ) → x < 2 ^ 16 → bit_and x 0xff00 ≡ 0 → x < 256
one_byte x h e = omega (arith, high_byte x, bit_and_mask 8 (x / 256))

flag_in_byte : (x : ℕ) → has_flag (x % 256) xmit_extended_flags ≡ has_flag x xmit_extended_flags
flag_in_byte x =
    has_flag-test_bit (x % 256) xmit_extended_flags
    ∙ ap (λ (t : ℕ). t == 1) same
    ∙ sym (has_flag-test_bit x xmit_extended_flags)
  where
    same : x % 256 / 2 / 2 % 2 ≡ x / 2 / 2 % 2
    same = omega arith

pub flag_nonzero : (x : ℕ) → has_flag x xmit_extended_flags ≡ true → 0 < x
flag_nonzero zero h = cc (has_flag-zero xmit_extended_flags)
flag_nonzero (suc x) h = omega arith

-- Two bytes with the mark in the first.
read_marked :
    (x version : ℕ) (rest : Bytes)
    → leb 28 version ≡ true
    → x < 2 ^ 16
    → has_flag x xmit_extended_flags ≡ true
    → read_xflags version false (write_uint16 x ++ rest) ≡ ok x rest
unfolding read_xflags write_uint16 read_byte
read_marked x version rest new h marked =
    rw (nonzero, new, flag_in_byte x, marked)
      (ap (λ (v : ℕ). ok v rest)
        (bit_or_shifted 8 (x % 256) (x / 256 % 256) (omega arith) ∙ omega arith))
  where
    marked_byte : has_flag (x % 256) xmit_extended_flags ≡ true
    marked_byte = flag_in_byte x ∙ marked

    nonzero : (x % 256 == 0) ≡ false
    nonzero = ground (arith, flag_nonzero (x % 256) marked_byte)

-- One byte without the mark.
read_plain :
    (x version : ℕ) (rest : Bytes)
    → x < 256
    → 0 < x
    → (leb 28 version && has_flag x xmit_extended_flags) ≡ false
    → read_xflags version false ((x % 256) ∷ rest) ≡ ok x rest
unfolding read_xflags read_byte
read_plain x version rest h pos plain =
    let whole : x % 256 ≡ x = omega arith in
    let nonzero : (x == 0) ≡ false = ground arith in rw (whole, nonzero, plain)

no_mark :
    (x version : ℕ)
    → has_flag x xmit_extended_flags ≡ false
    → (leb 28 version && has_flag x xmit_extended_flags) ≡ false
no_mark x version plain =
    rw plain (elim (Bool-cases (leb 28 version)) [ inl a ↦ rw a | inr b ↦ rw b ])

pub only_low :
    (x : ℕ) → not (bit_and x 0xff00 == 0) || x == 0 ≡ false → (bit_and x 0xff00 ≡ 0) × (0 < x)
only_low x h = ground arith

module _ (x mode version : ℕ) (rest : Bytes) (fits : x < 2 ^ 15)
    (unmarked : has_flag x xmit_extended_flags ≡ false) where
  read_new :
      leb 28 version ≡ true
      → read_xflags version false (write_xflags x mode version false ++ rest)
        ≡ ok (arrived x mode version false) rest
  unfolding write_xflags arrived
  read_new new =
      let x' = set_if (x == 0 && not (is_dir mode)) xmit_top_dir x in
      let fits' : x' < 2 ^ 15 =
        set_if-lt (x == 0 && not (is_dir mode)) xmit_top_dir x 15 fits (omega arith) in
      elim (Bool-cases (not (bit_and x' 0xff00 == 0) || x' == 0)) [
        | inl two ↦
            let y = bit_or x' (2 ^ xmit_extended_flags) in
            let y_fits : y < 2 ^ 15 =
              bit_or-lt 15 x' (2 ^ xmit_extended_flags) fits' (omega arith) in
            let whole : y % 2 ^ 16 ≡ y = omega arith in
            rw (new, two, whole)
              (read_marked y version rest new (omega arith)
                (has_flag-bit_or_pow x' xmit_extended_flags xmit_extended_flags))
        | inr one ↦
            let (no_high, nonzero) = only_low x' one in
            let plain : has_flag x' xmit_extended_flags ≡ false =
              has_flag-set_if (x == 0 && not (is_dir mode)) xmit_top_dir x xmit_extended_flags
              ∙ unmarked in
            rw (new, one)
              (read_plain x' version rest (one_byte x' (omega arith) no_high) nonzero
                (no_mark x' version plain))
      ]

  read_old :
      leb 28 version ≡ false
      → (version < 28 → x < 256)
      → read_xflags version false (write_xflags x mode version false ++ rest)
        ≡ ok (arrived x mode version false) rest
  unfolding write_xflags arrived
  read_old old small = elim (Bool-cases (x == 0)) [
    | inl clear ↦ elim (Bool-cases (is_dir mode)) [
      | inl dir ↦
          rw (old, clear, dir) (read_plain 64 version rest (omega arith) (omega arith) (rw old))
      | inr other ↦
          rw (old, clear, other) (read_plain 1 version rest (omega arith) (omega arith) (rw old))
    ]
    | inr some_flag ↦
        rw (old, some_flag)
          (read_plain x version rest (small (ground arith)) (ground arith) (rw old))
  ]

  -- readXflags returns the flags that writeXflags sent, with what it set.
  pub read_xflags-write_xflags :
      (varint_flist_flags : Bool)
      → (version < 28 → varint_flist_flags ≡ false → x < 256)
      → read_xflags version varint_flist_flags
          (write_xflags x mode version varint_flist_flags ++ rest)
        ≡ ok (arrived x mode version varint_flist_flags) rest
  read_xflags-write_xflags true small =
      unfold read_xflags write_xflags arrived in
      read_varint-write_varint (if x == 0 then 2 ^ xmit_extended_flags else x) rest (ground arith)
  read_xflags-write_xflags false small = elim (Bool-cases (leb 28 version)) [
    | inl new ↦ read_new new
    | inr old ↦ read_old old (λ v. small v refl)
  ]
