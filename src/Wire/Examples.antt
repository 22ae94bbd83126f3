-- ===== src/Wire/Examples.antt =====
-- The theorems on the other wire integers and strings at concrete inputs.
use go_rsyncfs.Base.{◌≡◌, [], ◌∷◌, ◌++◌, arith, ℕ, List}
use go_rsyncfs.Io.{ok}
use go_rsyncfs.Wire.Fixed.{write_longint, read_longint, write_uint16, read_uint16}
use go_rsyncfs.Wire.Fixed.RoundTrip.{read_longint-write_longint, read_uint16-write_uint16}
use go_rsyncfs.Wire.Ndx.{new_ndx_state, ndx_done}
use go_rsyncfs.Wire.Ndx.Sequence.{write_ndxs, read_ndxs, read_ndxs-write_ndxs}
use go_rsyncfs.Wire.Vstring.{write_vstring, read_vstring}
use go_rsyncfs.Wire.Vstring.RoundTrip.{read_vstring-write_vstring}

abbrev minus_one : ℕ
minus_one = 0xffff_ffff_ffff_ffff

abbrev indices : List ℕ
indices = 0 ∷ 5 ∷ 300 ∷ 0x12_3456 ∷ 3 ∷ 3 ∷ ndx_done ∷ 0xffff_fffe ∷ []

read_longint-write_longint_run :
    read_longint (write_longint minus_one ++ (7 ∷ [])) ≡ ok minus_one (7 ∷ [])
read_longint-write_longint_run = read_longint-write_longint minus_one (7 ∷ []) (omega arith)

sample_uint16 : read_uint16 (write_uint16 0x1234 ++ (7 ∷ [])) ≡ ok 0x1234 (7 ∷ [])
sample_uint16 = read_uint16-write_uint16 0x1234 (7 ∷ []) (omega arith)

read_ndxs-write_ndxs_example :
    read_ndxs 8 new_ndx_state (write_ndxs new_ndx_state indices ++ (7 ∷ [])) ≡ ok indices (7 ∷ [])
read_ndxs-write_ndxs_example =
    read_ndxs-write_ndxs new_ndx_state indices (7 ∷ []) (omega arith) (omega arith)

read_vstring-write_vstring_run :
    read_vstring ((write_vstring (b'm' ∷ b'd' ∷ b'5' ∷ [])).0 ++ (7 ∷ []))
    ≡ ok (b'm' ∷ b'd' ∷ b'5' ∷ []) (7 ∷ [])
read_vstring-write_vstring_run =
    read_vstring-write_vstring (b'm' ∷ b'd' ∷ b'5' ∷ []) (7 ∷ []) (omega arith)
