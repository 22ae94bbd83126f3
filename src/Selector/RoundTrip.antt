-- ===== src/Selector/RoundTrip.antt =====
-- ReadSelector reads back what WriteSelector wrote for the same version and index state.
use go_rsyncfs.Base.{
  ℕ, ◌%◌, ◌^◌, ◌≤◌, ◌≡◌, refl, ap, ◌∙◌, Bool, true, false, [], ◌∷◌, ◌++◌, append_assoc, Bytes, leb,
  if◌then◌else◌, arith, inl, inr, Bool-cases, length, none,
}
use go_rsyncfs.Io.{ok, read_byte, Output, wrote}
use go_rsyncfs.Wire.Fixed.{IsU16, write_uint16, read_uint16}
use go_rsyncfs.Wire.Fixed.RoundTrip.{read_int32-write_int32, read_uint16-write_uint16}
use go_rsyncfs.Wire.Ndx.{NdxState}
use go_rsyncfs.Wire.Ndx.RoundTrip.{IsNdx, InRange, read_ndx-write_ndx}
use go_rsyncfs.Wire.Vstring.{write_vstring}
use go_rsyncfs.Wire.Vstring.RoundTrip.{read_vstring-write_vstring, write_vstring-ok}
use go_rsyncfs.Selector.{
  Selector, default_iflags, has_basis_type, has_xname, carries_iflags, read_selector_ndx,
  read_iflags, read_basis_type, read_xname, read_selector, write_selector_ndx, write_selector,
}

-- A selector that the version can carry: below 29, and for a negative index, the flags are not sent
-- and must be the default ones; the optional fields are empty where their flag is not set.
pub record IsSelector (version : ℕ) (sel : Selector) : Type 0 where
  pub ndx_fits : IsNdx sel.ndx
  pub iflags_sent : carries_iflags version sel.ndx ≡ true → IsU16 sel.iflags
  pub iflags_default : carries_iflags version sel.ndx ≡ false → sel.iflags ≡ default_iflags
  pub no_basis_type : has_basis_type sel.iflags ≡ false → sel.basis_type ≡ 0
  pub no_xname : has_xname sel.iflags ≡ false → sel.xname ≡ []
  pub xname_fits : length sel.xname ≤ 0x7fff

read_ndx_part :
    (s : NdxState) (version ndx : ℕ) (rest : Bytes)
    → InRange s
    → IsNdx ndx
    → read_selector_ndx s version ((write_selector_ndx s version ndx).0 ++ rest)
      ≡ ok (ndx, (write_selector_ndx s version ndx).1) rest
unfolding read_selector_ndx write_selector_ndx
read_ndx_part s version ndx rest r v = elim (Bool-cases (leb 30 version)) [
  | inl new ↦ rw new (read_ndx-write_ndx s ndx rest r v)
  | inr old ↦ rw old (rw (read_int32-write_int32 ndx rest v.0))
]

abbrev iflags_part : ℕ → Selector → Bytes
iflags_part version sel =
    if carries_iflags version sel.ndx then write_uint16 (sel.iflags % 2 ^ 16) else []

abbrev basis_part : Selector → Bytes
basis_part sel = if has_basis_type sel.iflags then sel.basis_type ∷ [] else []

abbrev xname_part : Selector → Bytes
xname_part sel = if has_xname sel.iflags then (write_vstring sel.xname).0 else []

if-wrote : (b : Bool) (s : Bytes) → (if b then wrote s else wrote []) ≡ wrote (if b then s else [])
if-wrote true s = refl
if-wrote false s = refl

output_of_none : (o : Output) → o.1 ≡ none → o ≡ wrote o.0
output_of_none o h = ground (arith, h)

write_selector-parts :
    (s : NdxState) (version : ℕ) (sel : Selector)
    → length sel.xname ≤ 0x7fff
    → write_selector s version sel ≡ (
      wrote (
          (write_selector_ndx s version sel.ndx).0
          ++ iflags_part version sel
          ++ basis_part sel
          ++ xname_part sel),
      (write_selector_ndx s version sel.ndx).1,
    )
unfolding write_selector
write_selector-parts s version sel h =
    rw (output_of_none (write_vstring sel.xname) (write_vstring-ok sel.xname h), if-wrote)
      (rw if-wrote (rw if-wrote))

module _ (version : ℕ) (sel : Selector) (v : IsSelector version sel) (rest : Bytes) where
  read_iflags_part :
      read_iflags version sel.ndx (iflags_part version sel ++ rest) ≡ ok sel.iflags rest
  unfolding read_iflags
  read_iflags_part = elim (Bool-cases (carries_iflags version sel.ndx)) [
    | inl sent ↦ rw sent (
        ap (λ (x : ℕ). read_uint16 (write_uint16 x ++ rest)) (ground (arith, v.iflags_sent sent))
        ∙ read_uint16-write_uint16 sel.iflags rest (v.iflags_sent sent))
    | inr not_sent ↦
        rw not_sent (ap (λ (x : ℕ). ok x rest) (ground (arith, v.iflags_default not_sent)))
  ]

  read_basis_part : read_basis_type sel.iflags (basis_part sel ++ rest) ≡ ok sel.basis_type rest
  unfolding read_basis_type read_byte
  read_basis_part = elim (Bool-cases (has_basis_type sel.iflags)) [
    | inl follows ↦ rw follows
    | inr absent ↦ rw absent (ap (λ (x : ℕ). ok x rest) (ground (arith, v.no_basis_type absent)))
  ]

  read_xname_part : read_xname sel.iflags (xname_part sel ++ rest) ≡ ok sel.xname rest
  unfolding read_xname
  read_xname_part = elim (Bool-cases (has_xname sel.iflags)) [
    | inl follows ↦ rw follows (read_vstring-write_vstring sel.xname rest v.xname_fits)
    | inr absent ↦ rw absent (ap (λ (x : Bytes). ok x rest) (ground (arith, v.no_xname absent)))
  ]

-- ReadSelector returns the selector that WriteSelector sent, and both sides end in the same index
-- state.
pub read_selector-write_selector :
    (s : NdxState) (version : ℕ) (sel : Selector) (rest : Bytes)
    → InRange s
    → IsSelector version sel
    → read_selector s version ((write_selector s version sel).0.0 ++ rest)
      ≡ ok (sel, (write_selector s version sel).1) rest
unfolding read_selector
read_selector-write_selector s version sel rest r v =
    let x = xname_part sel ++ rest in
    rw (write_selector-parts s version sel v.xname_fits) (
      simp append_assoc (
        rw
          (read_ndx_part s version sel.ndx (iflags_part version sel ++ (basis_part sel ++ x)) r
            v.ndx_fits)
          (rw (read_iflags_part version sel v (basis_part sel ++ x))
            (rw (read_basis_part version sel v x) (rw (read_xname_part version sel v rest))))))

-- WriteSelector fails only by its name.
pub write_selector-succeeds :
    (s : NdxState) (version : ℕ) (sel : Selector)
    → length sel.xname ≤ 0x7fff
    → (write_selector s version sel).0 ≡ wrote (write_selector s version sel).0.0
write_selector-succeeds s version sel h = rw (write_selector-parts s version sel h) refl
