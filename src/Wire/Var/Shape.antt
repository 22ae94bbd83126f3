-- ===== src/Wire/Var/Shape.antt =====
-- What `encode` writes: a first byte, and the bytes that the table announces for it.
use go_rsyncfs.Base.{
  ℕ, zero, suc, ◌+◌, ◌-◌, ◌*◌, ◌%◌, ◌^◌, ◌≤◌, ◌<◌, ◌≡◌, refl, sym, ap, ◌∙◌, [], ◌∷◌, ◌++◌, Bytes,
  length, take, take-suc, take_all, length-take, All, All-get_or, bit_or, get_or, ltb, leb, arith,
  inl, inr, Bool-cases, ltb→lt, false, if◌then◌else◌,
}
use go_rsyncfs.Wire.Le.{
  le_bytes, le_value, le_value-take_append_zero, le_bytes-IsByte, length-le_bytes,
  le_value-le_bytes, IsByte,
}
use go_rsyncfs.Wire.Var.{trim, extra_of, not_byte, pred_byte, flag_bit, encode, masked}
use go_rsyncfs.Wire.Var.Table.{extra_of-full, extra_of-top, extra_of_small, flag_fits}
use go_rsyncfs.Wire.Var.Trim.{trim_bounds, le_value-trim}

-- What the readers put behind the bytes that they read.
abbrev pub last_byte : ℕ → ℕ → ℕ
last_byte first zero = first
last_byte first extra = masked first extra

pub last_byte-pos : (first e : ℕ) → 0 < e → last_byte first e ≡ masked first e
last_byte-pos first zero h = absurd (omega arith)
last_byte-pos first (suc e) h = refl

-- `s` is a first byte and the bytes of `x` that it announces, of which `width` are looked at.
pub record Encoded (width low x : ℕ) (s : Bytes) : Type 0 where
  pub first : ℕ
  pub body : Bytes
  pub shape : s ≡ first ∷ body
  pub body_length : length body + 1 ≡ low + extra_of first
  pub fits : low + extra_of first ≤ width + 1
  pub value : le_value (take width (body ++ (last_byte first (extra_of first) ∷ []))) ≡ x

module _ (width low x c : ℕ) (bytes : Bytes) (len : length bytes ≡ width) (all : All IsByte bytes)
    (lo : 0 < low) (le : low ≤ suc c) (near : suc c < low + 6) (hi : suc c ≤ width)
    (val : le_value (take (suc c) bytes) ≡ x) where
  top : ℕ
  top = get_or bytes c 0

  excess : ℕ
  excess = suc c - low

  snoc : take c bytes ++ (top ∷ []) ≡ take (suc c) bytes
  unfolding top
  snoc = sym (take-suc c bytes 0 (omega arith))

  all_looked_at : le_value (take width (take c bytes ++ (top ∷ []))) ≡ x
  all_looked_at =
      rw (snoc, take_all width (take (suc c) bytes) (omega (arith, length-take (suc c) bytes))) val

  flag : flag_bit low (suc c) ≡ 2 ^ (7 - excess) % 256
  unfolding excess
  flag = ap (λ (k : ℕ). 2 ^ k % 256) (omega arith)

  full :
      (f : ℕ)
      → extra_of f ≡ excess + 1
      → masked f (excess + 1) ≡ 0
      → Encoded width low x (f ∷ take (suc c) bytes)
  unfolding excess
  full f e m = record {
    first = f;
    body = take (suc c) bytes;
    shape = refl;
    body_length = omega (arith, e, length-take (suc c) bytes);
    fits = omega (arith, e);
    value =
        ap (λ (b : ℕ). le_value (take width (take (suc c) bytes ++ (b ∷ []))))
          (ap (last_byte f) e ∙ last_byte-pos f (excess + 1) (omega arith) ∙ m)
        ∙ le_value-take_append_zero width (take (suc c) bytes)
            (omega (arith, length-take (suc c) bytes))
        ∙ val;
  }

  partial :
      (f : ℕ)
      → extra_of f ≡ excess
      → last_byte f excess ≡ top
      → Encoded width low x (f ∷ take c bytes)
  unfolding excess
  partial f e m = record {
    first = f;
    body = take c bytes;
    shape = refl;
    body_length = omega (arith, e, length-take c bytes);
    fits = omega (arith, e);
    value =
        ap (λ (b : ℕ). le_value (take width (take c bytes ++ (b ∷ [])))) (ap (last_byte f) e ∙ m)
        ∙ all_looked_at;
  }

  top-IsByte : IsByte top
  unfolding top
  top-IsByte = All-get_or IsByte bytes c 0 all (omega arith)

  small_top : leb (2 ^ (7 - excess) % 256) top ≡ false → top < 2 ^ (7 - excess)
  unfolding excess
  small_top small = ground (arith, flag_fits (suc c - low))

  encode_few :
      leb (2 ^ (7 - excess) % 256) top ≡ false
      → Encoded width low x (
          if ltb low (suc c)
          then bit_or top (not_byte (pred_byte (2 ^ (7 - excess) % 256 * 2 % 256))) ∷ take c bytes
          else top ∷ take c bytes)
  encode_few small = elim (Bool-cases (ltb low (suc c))) [
    | inl more ↦ rw more (
        let pos : 0 < excess = unfold excess in omega (arith, ltb→lt _ _ more) in
        let (e, m) =
          extra_of-top excess top (unfold excess in omega arith) pos top-IsByte (small_top small) in
        partial _ e (last_byte-pos _ excess pos ∙ m))
    | inr least ↦ rw least (
        let none_more : excess ≡ 0 = unfold excess in ground arith in
        partial top
          (extra_of_small top (ground (arith, small_top small, none_more)) ∙ sym none_more)
          (ap (last_byte top) none_more))
  ]

  pred_suc : suc c - 1 ≡ c
  pred_suc = omega arith

  encode-Encoded : Encoded width low x (encode low (suc c) bytes)
  unfolding encode top
  encode-Encoded =
      rw (flag, pred_suc)
        (elim (Bool-cases (leb (2 ^ (7 - excess) % 256) top)) [
          | inl big ↦
              rw big
                (let (e, m) = extra_of-full excess (unfold excess in omega arith) in full _ e m)
          | inr small ↦ rw small (encode_few small)
        ])

suc_of_pos : (n : ℕ) → 0 < n → (c : ℕ) × (n ≡ suc c)
suc_of_pos zero h = absurd (omega arith)
suc_of_pos (suc c) h = (c, refl)

-- The encoding of every number of `width` bytes, if its least length is at most 6 bytes shorter.
pub encode-trim-Encoded :
    (width low x : ℕ)
    → 0 < low
    → low ≤ width
    → width < low + 6
    → x < 256 ^ width
    → Encoded width low x (encode low (trim low width (le_bytes width x)) (le_bytes width x))
encode-trim-Encoded width low x pos le near small =
    let bytes = le_bytes width x in
    let (lo, hi) = trim_bounds low width bytes pos le in
    let (c, e) = suc_of_pos (trim low width bytes) (omega arith) in
    let len = length-le_bytes width x in
    let kept : le_value (take (trim low width bytes) bytes) ≡ x =
      le_value-trim low width bytes (omega (arith, len))
      ∙ ap le_value (take_all width bytes (omega (arith, len)))
      ∙ le_value-le_bytes width x small in
    rw e (
      encode-Encoded width low x c bytes len (le_bytes-IsByte width x) pos (omega (arith, e))
        (omega (arith, e)) (omega (arith, e)) (rw e at kept))
