-- ===== src/Mux/Reader.antt =====
-- The Reader of protocol/mux/mux.go over an io.Reader. Its state is the data that no Read has taken
-- yet; a call of it takes that buffer and returns the new one beside its result.
pub mod Total
pub mod Delivers
pub mod Reads
pub mod Messages
mod Examples
use go_rsyncfs.Base.{
  ℕ, zero, suc, Bool, not, List, [], ◌∷◌, ◌++◌, Bytes, length, take, drop, ◌==◌, if◌then◌else◌,
}
use go_rsyncfs.Io.{Reader, ◌>>=◌, return, fail, out_of_fuel, unexpected_msg}
use go_rsyncfs.Mux.Frame.{read_frame, is_info_message, msg_data}

-- The payload of a data frame, if it is not empty; else the loop goes on.
abbrev pub taken : Reader Bytes → Bytes → Reader Bytes
taken more [] = more
taken more (b ∷ payload) = return (b ∷ payload)

-- One round of the loop of Read, by the frame that it got.
pub on_frame : Reader Bytes → ℕ × Bytes → Reader Bytes
on_frame more (code, payload) =
    if code == msg_data
    then taken more payload
    else if is_info_message code
    then more
    else fail (unexpected_msg code)

-- The loop of Read.
pub fetch : ℕ → Reader Bytes
fetch zero = fail out_of_fuel
fetch (suc fuel) = do frame ← read_frame; on_frame (fetch fuel) frame

-- Read into a buffer of `n` bytes: what it was given, and the buffer after it. A frame takes four
-- bytes at least, so a round for each byte and one more are enough.
pub read : ℕ → Bytes → Reader (Bytes × Bytes)
read n [] s = (do payload ← fetch (suc (length s)); return (take n payload, drop n payload)) s
read n (b ∷ buf) s = return (take n (b ∷ buf), drop n (b ∷ buf)) s

-- The loop of ReadDataChunk, which takes an empty data frame too.
pub on_chunk : Reader Bytes → ℕ × Bytes → Reader Bytes
on_chunk more (code, payload) =
    if code == msg_data
    then return payload
    else if not (is_info_message code)
    then fail (unexpected_msg code)
    else more

pub fetch_chunk : ℕ → Reader Bytes
fetch_chunk zero = fail out_of_fuel
fetch_chunk (suc fuel) = do frame ← read_frame; on_chunk (fetch_chunk fuel) frame

-- ReadDataChunk: the buffer is empty after it, also after an error.
pub read_data_chunk : Bytes → Reader Bytes
read_data_chunk buf s = (do payload ← fetch_chunk (suc (length s)); return (buf ++ payload)) s

-- RecvMsg. The buffer is emptied before its loop, so the call does not depend on it.
pub on_message : Reader (ℕ × Bytes) → ℕ × Bytes → Reader (ℕ × Bytes)
on_message more (code, payload) = if not (code == msg_data) then return (code, payload) else more

pub fetch_message : ℕ → Reader (ℕ × Bytes)
fetch_message zero = fail out_of_fuel
fetch_message (suc fuel) = do frame ← read_frame; on_message (fetch_message fuel) frame

pub recv_msg : Reader (ℕ × Bytes)
recv_msg s = fetch_message (suc (length s)) s
