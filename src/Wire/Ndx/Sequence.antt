-- ===== src/Wire/Ndx/Sequence.antt =====
-- A whole run of indices over one pair of states.
use go_rsyncfs.Base.{
  ℕ, zero, suc, ◌≡◌, refl, List, [], ◌∷◌, ◌++◌, append_assoc, Bytes, length, All, arith,
}
use go_rsyncfs.Io.{Reader, ok, ◌>>=◌, return}
use go_rsyncfs.Wire.Ndx.{NdxState, write_ndx, read_ndx}
use go_rsyncfs.Wire.Ndx.RoundTrip.{IsNdx, InRange, read_ndx-write_ndx}

-- Calls of WriteNdx one after the other.
pub write_ndxs : NdxState → List ℕ → Bytes
write_ndxs s [] = []
write_ndxs s (ndx ∷ more) = (write_ndx s ndx).0 ++ write_ndxs (write_ndx s ndx).1 more

-- `count` calls of ReadNdx one after the other.
pub read_ndxs : ℕ → NdxState → Reader (List ℕ)
read_ndxs zero s = return []
read_ndxs (suc count) s = do (ndx, s') ← read_ndx s; more ← read_ndxs count s'; return (ndx ∷ more)

write_ndx-InRange : (s : NdxState) (ndx : ℕ) → InRange s → IsNdx ndx → InRange (write_ndx s ndx).1
unfolding write_ndx
write_ndx-InRange s ndx r v = ground arith

-- A reader that starts in the writer's state, of int32s, reads back every run of int32 indices other
-- than the least, -2^31, and leaves what follows.
pub read_ndxs-write_ndxs :
    (s : NdxState) (ndxs : List ℕ) (rest : Bytes)
    → InRange s
    → All IsNdx ndxs
    → read_ndxs (length ndxs) s (write_ndxs s ndxs ++ rest) ≡ ok ndxs rest
unfolding read_ndxs write_ndxs
read_ndxs-write_ndxs s [] rest r v = refl
read_ndxs-write_ndxs s (ndx ∷ more) rest r v =
    rw (append_assoc, read_ndx-write_ndx s ndx (write_ndxs (write_ndx s ndx).1 more ++ rest) r v.0)
      (rw (read_ndxs-write_ndxs (write_ndx s ndx).1 more rest (write_ndx-InRange s ndx r v.0) v.1))
