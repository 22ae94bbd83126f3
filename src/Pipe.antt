-- ===== src/Pipe.antt =====
-- pipe.go: one direction of the in-memory pipe. The mutex makes each round of Write and each Read
-- one step; a goroutine that waits on the condition tries its round again, and `blocked` is a round
-- that finds nothing to do. The two directions of BufPipe are two such pipes.
pub mod Fifo
pub mod Calls
pub mod Wakes
mod Examples
use go_rsyncfs.Base.{
  ℕ, zero, suc, ◌+◌, ◌-◌, ◌*◌, min, Bool, true, false, not, ◌&&◌, [], ◌∷◌, ◌++◌, Bytes, length,
  take, drop, leb, if◌then◌else◌,
}

pub record PipeBuf : Type 0 where
  pub buf : Bytes
  pub cap : ℕ
  pub closed : Bool

abbrev pub default_pipe_size : ℕ
default_pipe_size = 32 * 1024

abbrev pub new_pipe_buf : ℕ → PipeBuf
new_pipe_buf cap = record { buf = []; cap = cap; closed = false }

-- A round of the loop of Write on the bytes that are left to write: it waits, it finds the pipe
-- closed, or it takes `n` bytes.
pub data WriteRound : Type 0 where
  blocked : WriteRound
  broken : WriteRound
  took : ℕ → PipeBuf → WriteRound

pub write_round : PipeBuf → Bytes → WriteRound
write_round b p =
    if leb b.cap (length b.buf) && not b.closed
    then blocked
    else if b.closed
    then broken
    else let n = min (b.cap - length b.buf) (length p) in
      took n (record b { buf = b.buf ++ take n p })

-- Read into a buffer of `n` bytes: it waits, it gets io.EOF, or it gets bytes.
pub data ReadRound : Type 0 where
  waits : ReadRound
  eof : ReadRound
  gave : Bytes → PipeBuf → ReadRound

read_buf : ℕ → PipeBuf → Bytes → ReadRound
read_buf n b [] = if not b.closed then waits else eof
read_buf n b (x ∷ buf) = gave (take n (x ∷ buf)) (record b { buf = drop n (x ∷ buf) })

pub read_round : ℕ → PipeBuf → ReadRound
unfolding read_buf
read_round n b = read_buf n b b.buf

pub close : PipeBuf → PipeBuf
close b = if b.closed then b else record b { closed = true }
