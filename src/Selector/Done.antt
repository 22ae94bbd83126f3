-- ===== src/Selector/Done.antt =====
-- A selector that is NDxDone.
use go_rsyncfs.Base.{
  ℕ, ◌≡◌, refl, Bool-cases, inl, inr, [], ◌∷◌, ◌++◌, Bytes, leb, arith, if◌then◌else◌,
}
use go_rsyncfs.Io.{ok}
use go_rsyncfs.Wire.Fixed.{write_int32}
use go_rsyncfs.Wire.Fixed.RoundTrip.{read_int32-write_int32}
use go_rsyncfs.Wire.Ndx.{NdxState, ndx_done, write_ndx}
use go_rsyncfs.Wire.Ndx.Done.{write_ndx_done, read_ndx_done}
use go_rsyncfs.Selector.{
  Selector, default_iflags, read_selector, read_selector_ndx, read_iflags, read_basis_type,
  read_xname,
}

abbrev pub done_selector : Selector
done_selector = record { ndx = ndx_done; iflags = default_iflags; basis_type = 0; xname = [] }

-- NDxDone as its bytes.
abbrev pub done_bytes : ℕ → Bytes
done_bytes version = if leb 30 version then 0 ∷ [] else write_int32 ndx_done

pub write_ndx_version :
    (version : ℕ) (s : NdxState)
    → (if leb 30 version then write_ndx s ndx_done else (write_int32 ndx_done, s))
      ≡ (done_bytes version, s)
write_ndx_version version s = elim (Bool-cases (leb 30 version)) [
  | inl new ↦ rw new (write_ndx_done s)
  | inr old ↦ rw old refl
]

no_iflags :
    (version : ℕ) (rest : Bytes) → read_iflags version ndx_done rest ≡ ok default_iflags rest
unfolding read_iflags
no_iflags version rest = elim (Bool-cases (leb 29 version)) [
  | inl a ↦ rw a refl
  | inr b ↦ rw b refl
]

pub read_selector_done :
    (version : ℕ) (s : NdxState) (rest : Bytes)
    → read_selector s version (done_bytes version ++ rest) ≡ ok (done_selector, s) rest
unfolding read_selector read_selector_ndx read_basis_type read_xname
read_selector_done version s rest = elim (Bool-cases (leb 30 version)) [
  | inl new ↦ rw (new, read_ndx_done s rest, no_iflags version rest)
  | inr old ↦ rw (old, read_int32-write_int32 ndx_done rest (omega arith), no_iflags version rest)
]
