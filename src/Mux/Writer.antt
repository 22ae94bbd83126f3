-- ===== src/Mux/Writer.antt =====
-- The Writer of protocol/mux/mux.go over an io.Writer that takes every write. `out` is what has been
-- handed on. `bufSize` is not negative.
pub mod Refines
pub mod Write
pub mod Calls
use go_rsyncfs.Base.{
  ℕ, zero, suc, ◌+◌, ◌-◌, ◌*◌, min, Bool, true, false, List, [], ◌∷◌, ◌++◌, Bytes, Option, none,
  some, length, take, drop, leb, ◌==◌, if◌then◌else◌,
}
use go_rsyncfs.Io.{Error, Output, wrote, ◌>>>◌}
use go_rsyncfs.Mux.Frame.{write_frame, max_payload, msg_data}

pub record Writer : Type 0 where
  pub buf : Bytes
  pub buf_size : ℕ
  pub out : Bytes

-- The writer after a call, and the error of the call.
abbrev pub Written : Type 0
Written = Writer × Option Error

abbrev pub new_writer : Writer
new_writer = record { buf = []; buf_size = 32 * 1024; out = [] }

pub set_buffer_size : Writer → ℕ → Writer
set_buffer_size w size = record w { buf_size = size }

-- The loop of Flush: a round takes a byte at least.
pub flush_frames : ℕ → Bytes → Output
flush_frames fuel [] = wrote []
flush_frames zero (b ∷ s) = wrote []
flush_frames (suc fuel) (b ∷ s) =
    let n = min max_payload (length (b ∷ s)) in
    write_frame msg_data (take n (b ∷ s)) >>> flush_frames fuel (drop n (b ∷ s))

-- The underlying writer gets what was written before an error.
pub hand_on : Writer → Output → Written
hand_on w o = (record w { out = w.out ++ o.0 }, o.1)

pub flush_buf : Writer → Bytes → Written
flush_buf w [] = (w, none)
flush_buf w (b ∷ s) = hand_on (record w { buf = [] }) (flush_frames (length (b ∷ s)) (b ∷ s))

pub flush : Writer → Written
unfolding flush_buf
flush w = flush_buf w w.buf

pub send_payload : Written → ℕ → Bytes → Written
send_payload (w, some e) code payload = (w, some e)
send_payload (w, none) code payload = hand_on w (write_frame code payload)

pub send_msg : Writer → ℕ → Bytes → Written
send_msg w code payload = send_payload (flush w) code payload

-- The first `k` bytes of `p` go to the buffer.
abbrev pub append_chunk : Writer → ℕ → Bytes → Writer
append_chunk w k p = record w { buf = w.buf ++ take k p }

pub make_room : Writer → Written
make_room w = if leb w.buf_size (length w.buf) then flush w else (w, none)

-- The loop of Write, and the count of bytes that it returns. The first argument is the outcome of
-- making room, which a round does before it takes a chunk; a round takes a byte at least.
pub write_loop : ℕ → Writer → ℕ → Bytes → Written × ℕ
write_loop fuel w n [] = ((w, none), n)
write_loop zero w n (b ∷ p) = ((w, none), n)
write_loop (suc fuel) w n (b ∷ p) =
    let (w', e) = make_room w in
    elim e [
      | some x ↦ ((w', some x), n)
      | none ↦
          let k = min (w'.buf_size - length w'.buf) (length (b ∷ p)) in
          write_loop fuel (append_chunk w' k (b ∷ p)) (n + k) (drop k (b ∷ p))
    ]

pub write : Writer → Bytes → Written × ℕ
write w p =
    if w.buf_size == 0
    then ((record w { buf = w.buf ++ p }, none), length p)
    else write_loop (length p) w 0 p
