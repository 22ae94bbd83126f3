-- ===== src/Wire/Ndx/Done.antt =====
-- NDxDone is one byte and leaves the state of both ends as it is.
use go_rsyncfs.Base.{◌≡◌, refl, [], ◌∷◌, Bytes}
use go_rsyncfs.Io.{ok, read_byte}
use go_rsyncfs.Wire.Ndx.{NdxState, ndx_done, write_ndx, read_ndx}

pub write_ndx_done : (s : NdxState) → write_ndx s ndx_done ≡ (0 ∷ [], s)
unfolding write_ndx
write_ndx_done s = refl

pub read_ndx_done : (s : NdxState) (rest : Bytes) → read_ndx s (0 ∷ rest) ≡ ok (ndx_done, s) rest
unfolding read_ndx read_byte
read_ndx_done s rest = refl
