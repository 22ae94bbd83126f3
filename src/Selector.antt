-- ===== src/Selector.antt =====
-- protocol/selector.go: a file transfer request, over the connection's index state.
pub mod RoundTrip
pub mod Done
mod Examples
use go_rsyncfs.Base.{
  ℕ, ◌+◌, ◌%◌, ◌^◌, bit_and, Bool, not, ◌&&◌, [], ◌∷◌, ◌++◌, Bytes, leb, ◌==◌, if◌then◌else◌,
}
use go_rsyncfs.Io.{Reader, ◌>>=◌, return, read_byte, Output, wrote, ◌>>>◌}
use go_rsyncfs.Wire.Fixed.{is_neg32, write_int32, read_int32, write_uint16, read_uint16}
use go_rsyncfs.Wire.Ndx.{NdxState, write_ndx, read_ndx}
use go_rsyncfs.Wire.Vstring.{write_vstring, read_vstring}

pub record Selector : Type 0 where
  pub ndx : ℕ
  pub iflags : ℕ
  pub basis_type : ℕ
  pub xname : Bytes

-- ItemTransfer | ItemMissingData
abbrev pub default_iflags : ℕ
default_iflags = 2 ^ 15 + 2 ^ 16

-- `iflags&ItemBasisTypeFollows != 0` and `iflags&ItemXnameFollows != 0`
abbrev pub has_basis_type : ℕ → Bool
has_basis_type iflags = not (bit_and iflags (2 ^ 11) == 0)

abbrev pub has_xname : ℕ → Bool
has_xname iflags = not (bit_and iflags (2 ^ 12) == 0)

-- `version >= 29 && ndx >= 0`
abbrev pub carries_iflags : ℕ → ℕ → Bool
carries_iflags version ndx = leb 29 version && not (is_neg32 ndx)

read_selector_ndx : NdxState → ℕ → Reader (ℕ × NdxState)
read_selector_ndx s version =
    if leb 30 version then read_ndx s else (do ndx ← read_int32; return (ndx, s))

read_iflags : ℕ → ℕ → Reader ℕ
read_iflags version ndx = if carries_iflags version ndx then read_uint16 else return default_iflags

read_basis_type : ℕ → Reader ℕ
read_basis_type iflags = if has_basis_type iflags then read_byte else return 0

read_xname : ℕ → Reader Bytes
read_xname iflags = if has_xname iflags then read_vstring else return []

pub read_selector : NdxState → ℕ → Reader (Selector × NdxState)
read_selector s version = do
  (ndx, s') ← read_selector_ndx s version
  iflags ← read_iflags version ndx
  basis_type ← read_basis_type iflags
  xname ← read_xname iflags
  return (record { ndx = ndx; iflags = iflags; basis_type = basis_type; xname = xname }, s')

pub write_selector_ndx : NdxState → ℕ → ℕ → Bytes × NdxState
write_selector_ndx s version ndx = if leb 30 version then write_ndx s ndx else (write_int32 ndx, s)

unfoldable pub write_selector : NdxState → ℕ → Selector → Output × NdxState
write_selector s version sel =
    let head = write_selector_ndx s version sel.ndx in
    (
      wrote head.0
          >>> (if carries_iflags version sel.ndx
              then wrote (write_uint16 (sel.iflags % 2 ^ 16))
              else wrote [])
          >>> (if has_basis_type sel.iflags then wrote (sel.basis_type ∷ []) else wrote [])
          >>> (if has_xname sel.iflags then write_vstring sel.xname else wrote []),
      head.1,
    )
