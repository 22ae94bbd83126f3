-- ===== src/Pipe/Wakes.antt =====
-- The condition variable of a pipe in pipe.go: which calls sleep on it, and what wakes them.
use go_rsyncfs.Base.{
  ℕ, ltb, ◌≤◌, ◌<◌, ◌≡◌, refl, ap, ◌∙◌, ◌⊎◌, inl, inr, Bool, true, false, Bool-cases, if◌then◌else◌,
  List, [], ◌∷◌, Bytes, length, All, arith,
}
use mathlib.Core.Path.{subst}
use go_rsyncfs.Pipe.{
  PipeBuf, new_pipe_buf, WriteRound, blocked, broken, took, write_round, ReadRound, waits, eof,
  gave, read_round, close,
}
use go_rsyncfs.Pipe.Fifo.{
  WriteOutcome, full, refused, accepts, write_round-WriteOutcome, ReadOutcome, empty, ended, gives,
  read_round-ReadOutcome,
}

-- A call in cond.Wait: a Write with these bytes left, or a Read into a buffer of that length.
pub data Sleeper : Type 0 where
  writer : Bytes → Sleeper
  reader : ℕ → Sleeper

-- A pipe and the calls that sleep. A call that is awake and the lock's next owner are any.
pub record Monitor : Type 0 where
  pub pipe : PipeBuf
  pub asleep : List Sleeper

abbrev pub fresh_monitor : ℕ → Monitor
fresh_monitor cap = record { pipe = new_pipe_buf cap; asleep = [] }

-- cond.Broadcast: all that sleep wake, and try their round again as others do.
unfoldable pub broadcast : Monitor → Monitor
broadcast m = record m { asleep = [] }

-- A round of Write's loop on the bytes that are left.
unfoldable pub round_written : Bytes → Monitor → WriteRound → Monitor
round_written p m blocked = record m { asleep = writer p ∷ m.asleep }
round_written p m broken = m
round_written p m (took n b) = broadcast (record m { pipe = b })

unfoldable pub try_write : Bytes → Monitor → Monitor
try_write p m = round_written p m (write_round m.pipe p)

-- A round of Read.
unfoldable pub round_read : ℕ → Monitor → ReadRound → Monitor
round_read n m waits = record m { asleep = reader n ∷ m.asleep }
round_read n m eof = m
round_read n m (gave p b) = broadcast (record m { pipe = b })

unfoldable pub try_read : ℕ → Monitor → Monitor
try_read n m = round_read n m (read_round n m.pipe)

unfoldable pub try_close : Monitor → Monitor
try_close m = if m.pipe.closed then m else broadcast (record m { pipe = close m.pipe })

-- The states that a pipe of this capacity comes to.
pub data Runs (cap : ℕ) : Monitor → Type 0 where
  start : Runs cap (fresh_monitor cap)
  write_next : {m : Monitor} (p : Bytes) → 0 < length p → Runs cap m → Runs cap (try_write p m)
  read_next : {m : Monitor} (n : ℕ) → Runs cap m → Runs cap (try_read n m)
  close_next : {m : Monitor} → Runs cap m → Runs cap (try_close m)

-- A call that would sleep again if it woke.
abbrev pub MustSleep : PipeBuf → Sleeper → Type 0
MustSleep b (writer p) = write_round b p ≡ blocked
MustSleep b (reader n) = read_round n b ≡ waits

abbrev pub AllMustSleep : Monitor → Type 0
AllMustSleep m = All (MustSleep m.pipe) m.asleep

round_written-keeps :
    (p : Bytes) (m : Monitor) (o : WriteRound)
    → write_round m.pipe p ≡ o
    → AllMustSleep m
    → AllMustSleep (round_written p m o)
unfolding round_written broadcast
round_written-keeps p m blocked e h = (e, h)
round_written-keeps p m broken e h = h
round_written-keeps p m (took n b) e h = tt

round_read-keeps :
    (n : ℕ) (m : Monitor) (o : ReadRound)
    → read_round n m.pipe ≡ o
    → AllMustSleep m
    → AllMustSleep (round_read n m o)
unfolding round_read broadcast
round_read-keeps n m waits e h = (e, h)
round_read-keeps n m eof e h = h
round_read-keeps n m (gave p b) e h = tt

if-keeps :
    (closed : Bool) (m m' : Monitor)
    → AllMustSleep m
    → AllMustSleep m'
    → AllMustSleep (if closed then m else m')
if-keeps true m m' h h' = h
if-keeps false m m' h h' = h'

close-keeps : (m : Monitor) → AllMustSleep m → AllMustSleep (try_close m)
unfolding try_close broadcast
close-keeps m h = if-keeps m.pipe.closed m (record { pipe = close m.pipe; asleep = [] }) h tt

run-AllMustSleep : {cap : ℕ} {m : Monitor} → Runs cap m → AllMustSleep m
unfolding try_write try_read
run-AllMustSleep start = tt
run-AllMustSleep (write_next {m} p some run) =
    round_written-keeps p m (write_round m.pipe p) refl (run-AllMustSleep run)
run-AllMustSleep (read_next {m} n run) =
    round_read-keeps n m (read_round n m.pipe) refl (run-AllMustSleep run)
run-AllMustSleep (close_next {m} run) = close-keeps m (run-AllMustSleep run)

round_written-cap :
    (p : Bytes) (m : Monitor) {o : WriteRound}
    → WriteOutcome m.pipe p o
    → (round_written p m o).pipe.cap ≡ m.pipe.cap
unfolding round_written broadcast
round_written-cap p m (full f opened) = refl
round_written-cap p m (refused closed) = refl
round_written-cap p m (accepts n opened room e) = refl

round_read-cap :
    (n : ℕ) (m : Monitor) {o : ReadRound}
    → ReadOutcome n m.pipe o
    → (round_read n m o).pipe.cap ≡ m.pipe.cap
unfolding round_read broadcast
round_read-cap n m (empty e opened) = refl
round_read-cap n m (ended e closed) = refl
round_read-cap n m (gives some_bytes) = refl

close-cap : (m : Monitor) → (try_close m).pipe.cap ≡ m.pipe.cap
unfolding try_close broadcast close
close-cap m = elim (Bool-cases m.pipe.closed) [
  | inl closed ↦ rw closed refl
  | inr opened ↦ rw opened refl
]

run-cap : {cap : ℕ} {m : Monitor} → Runs cap m → m.pipe.cap ≡ cap
unfolding try_write try_read
run-cap start = refl
run-cap (write_next {m} p some run) =
    round_written-cap p m (write_round-WriteOutcome m.pipe p) ∙ run-cap run
run-cap (read_next {m} n run) = round_read-cap n m (read_round-ReadOutcome n m.pipe) ∙ run-cap run
run-cap (close_next {m} run) = close-cap m ∙ run-cap run

abbrev pub IsWriter : Sleeper → Type 0
IsWriter (writer p) = Unit
IsWriter (reader n) = ⊥

abbrev pub IsReader : Sleeper → Type 0
IsReader (writer p) = ⊥
IsReader (reader n) = Unit

blocked-full : {b : PipeBuf} {p : Bytes} → WriteOutcome b p blocked → b.cap ≤ length b.buf
blocked-full (full f opened) = f

waits-empty : {n : ℕ} {b : PipeBuf} → ReadOutcome n b waits → length b.buf ≡ 0
waits-empty (empty e opened) = ap length e

module _ (b : PipeBuf) where
  only_readers :
      0 < b.cap
      → length b.buf ≡ 0
      → (asleep : List Sleeper) → All (MustSleep b) asleep
      → All IsReader asleep
  only_readers pos none_left [] h = tt
  only_readers pos none_left (writer p ∷ asleep) h =
      let f = blocked-full (subst (WriteOutcome b p) h.0 (write_round-WriteOutcome b p)) in
      absurd (omega arith)
  only_readers pos none_left (reader n ∷ asleep) h = (tt, only_readers pos none_left asleep h.1)

  only_writers :
      0 < length b.buf → (asleep : List Sleeper) → All (MustSleep b) asleep → All IsWriter asleep
  only_writers some_left [] h = tt
  only_writers some_left (reader n ∷ asleep) h =
      let none_left = waits-empty (subst (ReadOutcome n b) h.0 (read_round-ReadOutcome n b)) in
      absurd (omega arith)
  only_writers some_left (writer p ∷ asleep) h = (tt, only_writers some_left asleep h.1)

-- No wake-up of a pipe is lost: whatever its calls do, and in whatever order, each call that sleeps
-- would sleep again if it tried its round, so a pipe that is closed, a buffer with room or one with
-- bytes leaves none behind that could go on; and, with a capacity that is not 0, those that sleep
-- are all Writes or all Reads, so the two never wait for each other.
pub run-asleep :
    (cap : ℕ) (m : Monitor)
    → 0 < cap
    → Runs cap m
    → AllMustSleep m × (All IsWriter m.asleep ⊎ All IsReader m.asleep)
run-asleep cap m pos run =
    let stuck = run-AllMustSleep run in
    let same = run-cap run in
    (
      stuck,
      elim (Bool-cases (ltb 0 (length m.pipe.buf))) [
        | inl some_left ↦ inl (only_writers m.pipe (ground arith) m.asleep stuck)
        | inr none_left ↦ inr (only_readers m.pipe (omega arith) (ground arith) m.asleep stuck)
      ],
    )
