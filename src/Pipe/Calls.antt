-- ===== src/Pipe/Calls.antt =====
-- A whole call of Write in pipe.go, with what others do to the pipe while it waits.
use go_rsyncfs.Base.{
  ℕ, ◌+◌, ◌≤◌, ◌<◌, ◌≡◌, true, [], ◌∷◌, ◌++◌, Bytes, length, length-drop, take, drop, arith,
}
use mathlib.Core.Path.{subst}
use go_rsyncfs.Pipe.{PipeBuf, blocked, broken, took, write_round}
use go_rsyncfs.Pipe.Fifo.{
  Traffic, writes, Steps, here, then_step, WriteOutcome, accepts, refused, write_round-WriteOutcome,
}

-- What Write returns: the count of all bytes, or the count of those that it wrote before it found
-- the pipe closed, with io.ErrClosedPipe.
pub data Returned : Type 0 where
  wrote_all : ℕ → Returned
  closed_pipe : ℕ → Returned

-- Write from the state `t` on, with these bytes left and `total` written: it returns in the second
-- state. The lock is given up only while it waits, and then others take any steps.
pub data WriteCall : Traffic → Bytes → ℕ → Traffic → Returned → Type 0 where
  finishes : {t : Traffic} {total : ℕ} → WriteCall t [] total t (wrote_all total)
  breaks :
      {t : Traffic} {b : ℕ} {p : Bytes} {total : ℕ}
      → write_round t.pipe (b ∷ p) ≡ broken
      → WriteCall t (b ∷ p) total t (closed_pipe total)
  is_blocked :
      {t u v : Traffic} {b : ℕ} {p : Bytes} {total : ℕ} {r : Returned}
      → write_round t.pipe (b ∷ p) ≡ blocked
      → Steps t u
      → WriteCall u (b ∷ p) total v r
      → WriteCall t (b ∷ p) total v r
  round :
      {t v : Traffic} {b : ℕ} {p : Bytes} {total : ℕ} {r : Returned} (n : ℕ) (c : PipeBuf)
      → write_round t.pipe (b ∷ p) ≡ took n c
      → WriteCall
          (record t { pipe = c; accepted = t.accepted ++ take n (b ∷ p) })
          (drop n (b ∷ p))
          (total + n)
          v
          r
      → WriteCall t (b ∷ p) total v r

-- The count is that of all bytes, or it is short and the pipe is closed.
pub data IsCount (all : ℕ) (v : Traffic) : Returned → Type 0 where
  complete : IsCount all v (wrote_all all)
  short : {k : ℕ} → k < all → v.pipe.closed ≡ true → IsCount all v (closed_pipe k)

Steps-append : {t u v : Traffic} → Steps t u → Steps u v → Steps t v
Steps-append first here = first
Steps-append first (then_step path step) = then_step (Steps-append first path) step

broken-closed : {b : PipeBuf} {p : Bytes} → WriteOutcome b p broken → b.closed ≡ true
broken-closed (refused closed) = closed

took_some :
    {b : PipeBuf} {x : ℕ} {p : Bytes} {n : ℕ} {c : PipeBuf}
    → WriteOutcome b (x ∷ p) (took n c)
    → (0 < n) × (n ≤ length (x ∷ p))
took_some (accepts n opened room e) = (omega arith, omega arith)

-- A call of Write that returns has taken steps of the pipe and no others, and returns the count of
-- all its bytes, or a count that is short when the pipe is closed.
pub WriteCall-IsCount :
    {t v : Traffic} {p : Bytes} {total : ℕ} {r : Returned}
    → WriteCall t p total v r
    → Steps t v × IsCount (total + length p) v r
WriteCall-IsCount {t} {total = total} finishes =
    (here, subst (λ (k : ℕ). IsCount k t (wrote_all total)) (omega arith) complete)
WriteCall-IsCount {t} (breaks {b} {p} e) = (
  here,
  short (omega arith) (
      broken-closed
        (subst (WriteOutcome t.pipe (b ∷ p)) e (write_round-WriteOutcome t.pipe (b ∷ p)))),
)
WriteCall-IsCount (is_blocked e others later) =
    let (path, count) = WriteCall-IsCount later in (Steps-append others path, count)
WriteCall-IsCount {t} {v} {total = total} {r = r} (round {b} {p} n c e later) =
    let (path, count) = WriteCall-IsCount later in
    let (some_bytes, fits) =
      took_some (subst (WriteOutcome t.pipe (b ∷ p)) e (write_round-WriteOutcome t.pipe (b ∷ p))) in
    (
      Steps-append (then_step here (writes (b ∷ p) n c e)) path,
      subst (λ (k : ℕ). IsCount k v r) (omega (arith, length-drop n (b ∷ p))) count,
    )
