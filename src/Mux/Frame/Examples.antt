-- ===== src/Mux/Frame/Examples.antt =====
-- A concrete frame of writeFrame in protocol/mux/mux.go, and the theorem at it.
use go_rsyncfs.Base.{◌≡◌, refl, [], ◌∷◌, ◌++◌, none, arith}
use go_rsyncfs.Io.{ok}
use go_rsyncfs.Wire.Le.{le_bytes}
use go_rsyncfs.Mux.Frame.{write_frame, read_frame, header_tag, read_frame-write_frame}

frame_head : write_frame 2 (b'h' ∷ b'i' ∷ []) ≡ (2 ∷ 0 ∷ 0 ∷ 9 ∷ b'h' ∷ b'i' ∷ [], none)
unfolding write_frame header_tag le_bytes
frame_head = refl

read_frame-write_frame_run :
    read_frame ((write_frame 2 (b'h' ∷ b'i' ∷ [])).0 ++ (7 ∷ []))
    ≡ ok (2, b'h' ∷ b'i' ∷ []) (7 ∷ [])
read_frame-write_frame_run =
    read_frame-write_frame 2 (b'h' ∷ b'i' ∷ []) (7 ∷ []) (omega arith) (omega arith)
