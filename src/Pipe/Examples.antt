-- ===== src/Pipe/Examples.antt =====
-- A small pipe, and the theorems at it.
use go_rsyncfs.Base.{◌≡◌, ◌⊎◌, All, refl, false, [], ◌∷◌, arith}
use go_rsyncfs.Pipe.{PipeBuf, new_pipe_buf, blocked, took, write_round, gave, read_round, read_buf}
use go_rsyncfs.Pipe.Fifo.{
  Traffic, fresh, writes, reads, Steps, here, then_step, IsFifo, steps-IsFifo,
}
use mathlib.Core.Path.{subst}
use go_rsyncfs.Pipe.Wakes.{
  Monitor, fresh_monitor, broadcast, round_written, try_write, writer, Runs, start, write_next,
  AllMustSleep, IsWriter, IsReader, run-asleep,
}
use go_rsyncfs.Pipe.Calls.{
  WriteCall, round, is_blocked, finishes, wrote_all, IsCount, WriteCall-IsCount,
}

-- A pipe of two bytes that is full, and what is left of it after a read of one.
abbrev full_pipe : PipeBuf
full_pipe = record { buf = 1 ∷ 2 ∷ []; cap = 2; closed = false }

abbrev full_traffic : Traffic
full_traffic = record { pipe = full_pipe; accepted = 1 ∷ 2 ∷ []; received = [] }

abbrev after_read : Traffic
after_read = record {
  pipe = record full_pipe { buf = 2 ∷ [] };
  accepted = 1 ∷ 2 ∷ [];
  received = 1 ∷ [];
}

first_round : write_round (new_pipe_buf 2) (1 ∷ 2 ∷ 3 ∷ []) ≡ took 2 full_pipe
unfolding write_round
first_round = refl

is_full : write_round full_pipe (3 ∷ []) ≡ blocked
unfolding write_round
is_full = refl

one_out : read_round 1 full_pipe ≡ gave (1 ∷ []) (record full_pipe { buf = 2 ∷ [] })
unfolding read_round read_buf
one_out = refl

last_round :
    write_round (record full_pipe { buf = 2 ∷ [] }) (3 ∷ [])
    ≡ took 1 (record full_pipe { buf = 2 ∷ 3 ∷ [] })
unfolding write_round
last_round = refl

path : Steps (fresh 2) after_read
path =
    then_step (then_step here (writes (1 ∷ 2 ∷ 3 ∷ []) 2 full_pipe first_round))
      (reads 1 (1 ∷ []) _ one_out)

steps-IsFifo_example : IsFifo 2 after_read
steps-IsFifo_example = steps-IsFifo 2 after_read path

-- A Write of three bytes into a pipe of two: it writes two and sleeps.
abbrev one_asleep : Monitor
one_asleep = record { pipe = full_pipe; asleep = writer (3 ∷ []) ∷ [] }

sleeps : try_write (3 ∷ []) (try_write (1 ∷ 2 ∷ 3 ∷ []) (fresh_monitor 2)) ≡ one_asleep
unfolding try_write round_written broadcast write_round
sleeps = refl

sleeping_run : Runs 2 one_asleep
sleeping_run =
    subst (Runs 2) sleeps
      (write_next (3 ∷ []) (omega arith) (write_next (1 ∷ 2 ∷ 3 ∷ []) (omega arith) start))

run-asleep_example :
    AllMustSleep one_asleep × (All IsWriter one_asleep.asleep ⊎ All IsReader one_asleep.asleep)
run-asleep_example = run-asleep 2 one_asleep (omega arith) sleeping_run

abbrev at_end : Traffic
at_end = record {
  pipe = record full_pipe { buf = 2 ∷ 3 ∷ [] };
  accepted = 1 ∷ 2 ∷ 3 ∷ [];
  received = 1 ∷ [];
}

-- A Write of three bytes that waits for a reader once.
whole_call : WriteCall (fresh 2) (1 ∷ 2 ∷ 3 ∷ []) 0 at_end (wrote_all 3)
whole_call = round 2 full_pipe first_round (
    is_blocked is_full (then_step here (reads 1 (1 ∷ []) _ one_out))
      (round 1 _ last_round finishes))

WriteCall-IsCount_example : Steps (fresh 2) at_end × IsCount 3 at_end (wrote_all 3)
WriteCall-IsCount_example = WriteCall-IsCount whole_call
