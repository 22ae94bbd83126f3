-- ===== src/Wire/Var/Examples.antt =====
-- Concrete runs of the variable-length integers, and the theorems at concrete inputs.
use go_rsyncfs.Base.{◌≡◌, ◌≢◌, refl, [], ◌∷◌, ◌++◌, Bytes, arith}
use go_rsyncfs.Io.{ok, err, panic, eof, read_full, read_byte}
use go_rsyncfs.Wire.Le.{le_bytes}
use go_rsyncfs.Wire.Var.{write_varint, read_varint, write_varlong, read_varlong, trim, encode}
use go_rsyncfs.Wire.Var.RoundTrip.{read_varint-write_varint, read_varlong-write_varlong}
use go_rsyncfs.Wire.Var.Panics.{read_varint_panics, read_varint-ne-panic}

varint_300 : write_varint 300 ≡ 0x81 ∷ 0x2c ∷ []
unfolding write_varint le_bytes trim encode
varint_300 = refl

varint_minus_one : write_varint 0xffff_ffff ≡ 0xf0 ∷ 0xff ∷ 0xff ∷ 0xff ∷ 0xff ∷ []
unfolding write_varint le_bytes trim encode
varint_minus_one = refl

varlong_short : write_varlong 0x12345 3 ≡ 0x01 ∷ 0x45 ∷ 0x23 ∷ []
unfolding write_varlong le_bytes trim encode
varlong_short = refl

varint_cut : read_varint (0x81 ∷ []) ≡ err eof []
unfolding read_varint read_byte read_full
varint_cut = refl

-- The longest first byte of a 4-byte varlong also indexes past its array.
varlong_panic : read_varlong 4 (0xfc ∷ 1 ∷ 2 ∷ 3 ∷ 4 ∷ 5 ∷ 6 ∷ 7 ∷ 8 ∷ 9 ∷ []) ≡ err panic []
unfolding read_varlong read_byte read_full
varlong_panic = refl

read_varint-write_varint_example : read_varint (write_varint 300 ++ (7 ∷ [])) ≡ ok 300 (7 ∷ [])
read_varint-write_varint_example = read_varint-write_varint 300 (7 ∷ []) (omega arith)

read_varlong-write_varlong_example :
    read_varlong 3 (write_varlong 0x1_0000_0000 3 ++ (7 ∷ [])) ≡ ok 0x1_0000_0000 (7 ∷ [])
read_varlong-write_varlong_example =
    read_varlong-write_varlong 3 0x1_0000_0000 (7 ∷ []) (omega arith) (omega arith) (omega arith)

read_varint_panics_example :
    (rest : Bytes) × (read_varint (0xf8 ∷ 1 ∷ 2 ∷ 3 ∷ 4 ∷ 5 ∷ 6 ∷ []) ≡ err panic rest)
read_varint_panics_example =
    read_varint_panics 0xf8 (1 ∷ 2 ∷ 3 ∷ 4 ∷ 5 ∷ []) (6 ∷ []) (omega arith) (omega arith) refl

read_varint-ne-panic_run : read_varint (0xf0 ∷ 1 ∷ []) ≢ err panic []
read_varint-ne-panic_run = read_varint-ne-panic 0xf0 (1 ∷ []) [] (omega arith)
