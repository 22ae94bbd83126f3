-- ===== src/Mux/Writer/Calls/Examples.antt =====
-- Concrete calls of the Writer, and the theorem at them.
use go_rsyncfs.Base.{◌≡◌, refl, List, [], ◌∷◌, ◌++◌, arith}
use go_rsyncfs.Mux.Frame.{write_frame, header_tag}
use go_rsyncfs.Wire.Le.{le_bytes}
use go_rsyncfs.Mux.Writer.{
  Writer, new_writer, write, write_loop, make_room, flush, flush_buf, flush_frames, hand_on,
  send_msg, send_payload,
}
use go_rsyncfs.Mux.Writer.Refines.{Holds, Keeps, content, frames_bytes}
use go_rsyncfs.Mux.Writer.Calls.{
  Call, make_call, write_call, flush_call, send_call, meaning, make_calls, make_calls-Keeps,
}

-- A writer with room for two bytes.
abbrev small : Writer
small = record new_writer { buf_size = 2 }

abbrev calls : List Call
calls =
    write_call (1 ∷ 2 ∷ 3 ∷ 4 ∷ 5 ∷ [])
    ∷ send_call 2 (b'h' ∷ [])
    ∷ write_call (6 ∷ [])
    ∷ flush_call
    ∷ []

calls_out :
    (make_calls small calls).0.out
    ≡ 2 ∷ 0 ∷ 0 ∷ 7 ∷ 1 ∷ 2 ∷ 2 ∷ 0 ∷ 0 ∷ 7 ∷ 3 ∷ 4 ∷ 1 ∷ 0 ∷ 0 ∷ 7 ∷ 5 ∷ 1 ∷ 0 ∷ 0 ∷ 9 ∷ b'h' ∷ 1
      ∷ 0 ∷ 0 ∷ 7 ∷ 6 ∷ []
unfolding make_calls make_call write write_loop make_room flush flush_buf flush_frames hand_on
    send_msg send_payload write_frame header_tag le_bytes
calls_out = refl

small-Holds : Holds small []
unfolding content frames_bytes
small-Holds = record { frames = []; handed_on = refl; whole_frames = tt; all_items = refl }

make_calls-Keeps_example : Keeps 2 small (make_calls small calls) ([] ++ meaning calls)
make_calls-Keeps_example =
    make_calls-Keeps small [] calls (omega arith) (omega arith)
      (tt, ((omega arith, omega arith), (tt, (tt, tt)))) small-Holds
