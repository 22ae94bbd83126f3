-- ===== src/Pipe/Fifo.antt =====
-- All that any number of readers and writers can make of a pipe.
use go_rsyncfs.Base.{
  ℕ, ◌-◌, ◌≤◌, ◌<◌, ◌≡◌, refl, sym, ap, ◌∙◌, inl, inr, true, false, Bool-cases, [], ◌∷◌, ◌++◌,
  append_assoc, Bytes, length, length-append, length-take, length-drop, take, drop,
  take-append-drop, leb, min, arith,
}
use mathlib.Core.Path.{subst}
use go_rsyncfs.Pipe.{
  PipeBuf, new_pipe_buf, WriteRound, blocked, broken, took, write_round, ReadRound, waits, eof,
  gave, read_buf, read_round, close,
}

-- A pipe, the bytes that Writes have put into it, and the bytes that Reads have got from it.
pub record Traffic : Type 0 where
  pub pipe : PipeBuf
  pub accepted : Bytes
  pub received : Bytes

abbrev pub fresh : ℕ → Traffic
fresh cap = record { pipe = new_pipe_buf cap; accepted = []; received = [] }

pub data Step (t : Traffic) : Traffic → Type 0 where
  writes :
      (p : Bytes) (n : ℕ) (b : PipeBuf)
      → write_round t.pipe p ≡ took n b
      → Step t (record t { pipe = b; accepted = t.accepted ++ take n p })
  reads :
      (n : ℕ) (p : Bytes) (b : PipeBuf)
      → read_round n t.pipe ≡ gave p b
      → Step t (record t { pipe = b; received = t.received ++ p })
  closes : Step t (record t { pipe = close t.pipe })

pub data Steps (t : Traffic) : Traffic → Type 0 where
  here : Steps t t
  then_step : {u v : Traffic} → Steps t u → Step u v → Steps t v

-- The bytes come out in the order in which they went in, and the buffer is within its capacity.
pub record IsFifo (cap : ℕ) (t : Traffic) : Type 0 where
  pub in_order : t.received ++ t.pipe.buf ≡ t.accepted
  pub bounded : length t.pipe.buf ≤ t.pipe.cap
  pub same_cap : t.pipe.cap ≡ cap

-- What a round does, by the state that it finds.
pub data WriteOutcome (b : PipeBuf) (p : Bytes) : WriteRound → Type 0 where
  full : b.cap ≤ length b.buf → b.closed ≡ false → WriteOutcome b p blocked
  refused : b.closed ≡ true → WriteOutcome b p broken
  accepts :
      (n : ℕ)
      → b.closed ≡ false
      → length b.buf < b.cap
      → n ≡ min (b.cap - length b.buf) (length p)
      → WriteOutcome b p (took n (record b { buf = b.buf ++ take n p }))

pub data ReadOutcome (n : ℕ) (b : PipeBuf) : ReadRound → Type 0 where
  empty : b.buf ≡ [] → b.closed ≡ false → ReadOutcome n b waits
  ended : b.buf ≡ [] → b.closed ≡ true → ReadOutcome n b eof
  gives : 0 < length b.buf → ReadOutcome n b (gave (take n b.buf) (record b { buf = drop n b.buf }))

pub write_round-WriteOutcome : (b : PipeBuf) (p : Bytes) → WriteOutcome b p (write_round b p)
unfolding write_round
write_round-WriteOutcome b p = elim (Bool-cases b.closed) [
  | inl closed ↦ elim (Bool-cases (leb b.cap (length b.buf))) [
    | inl f ↦ rw (f, closed) (refused refl)
    | inr room ↦ rw (room, closed) (refused refl)
  ]
  | inr opened ↦ elim (Bool-cases (leb b.cap (length b.buf))) [
    | inl f ↦ rw (f, opened) (full (ground arith) refl)
    | inr room ↦
        rw (room, opened) (accepts (min (b.cap - length b.buf) (length p)) refl (ground arith) refl)
  ]
]

read_buf-ReadOutcome :
    (n : ℕ) (b : PipeBuf) (buf : Bytes) → b.buf ≡ buf → ReadOutcome n b (read_buf n b buf)
unfolding read_buf
read_buf-ReadOutcome n b [] e = elim (Bool-cases b.closed) [
  | inl closed ↦ rw closed (ended e refl)
  | inr opened ↦ rw opened (empty e refl)
]
read_buf-ReadOutcome n b (x ∷ buf) e =
    subst (λ (s : Bytes). ReadOutcome n b (gave (take n s) (record b { buf = drop n s }))) e
      (gives (rw e (omega arith)))

pub read_round-ReadOutcome : (n : ℕ) (b : PipeBuf) → ReadOutcome n b (read_round n b)
unfolding read_round
read_round-ReadOutcome n b = read_buf-ReadOutcome n b b.buf refl

after_write :
    {cap : ℕ} (t : Traffic) (p : Bytes) (n : ℕ) (b : PipeBuf)
    → IsFifo cap t
    → WriteOutcome t.pipe p (took n b)
    → IsFifo cap (record t { pipe = b; accepted = t.accepted ++ take n p })
after_write t p n _ h (accepts _ opened room e) = record {
  in_order =
      sym (append_assoc t.received t.pipe.buf (take n p))
      ∙ ap (λ (s : Bytes). s ++ take n p) h.in_order;
  bounded = omega (arith, length-append {0} t.pipe.buf (take n p), length-take n p, e);
  same_cap = h.same_cap;
}

after_read :
    {cap : ℕ} (t : Traffic) (n : ℕ) (p : Bytes) (b : PipeBuf)
    → IsFifo cap t
    → ReadOutcome n t.pipe (gave p b)
    → IsFifo cap (record t { pipe = b; received = t.received ++ p })
after_read t n _ _ h (gives some_bytes) = record {
  in_order =
      append_assoc t.received (take n t.pipe.buf) (drop n t.pipe.buf)
      ∙ ap (λ (s : Bytes). t.received ++ s) (take-append-drop n t.pipe.buf)
      ∙ h.in_order;
  bounded = omega (arith, length-drop n t.pipe.buf, h.bounded);
  same_cap = h.same_cap;
}

after_close : {cap : ℕ} (t : Traffic) → IsFifo cap t → IsFifo cap (record t { pipe = close t.pipe })
unfolding close
after_close t h = elim (Bool-cases t.pipe.closed) [
  | inl closed ↦
      rw closed (record { in_order = h.in_order; bounded = h.bounded; same_cap = h.same_cap })
  | inr opened ↦
      rw opened (record { in_order = h.in_order; bounded = h.bounded; same_cap = h.same_cap })
]

step-IsFifo : {cap : ℕ} {t u : Traffic} → IsFifo cap t → Step t u → IsFifo cap u
step-IsFifo {t = t} h (writes p n b e) =
    after_write t p n b h (subst (WriteOutcome t.pipe p) e (write_round-WriteOutcome t.pipe p))
step-IsFifo {t = t} h (reads n p b e) =
    after_read t n p b h (subst (ReadOutcome n t.pipe) e (read_round-ReadOutcome n t.pipe))
step-IsFifo {t = t} h closes = after_close t h

-- Whatever the readers, the writers and those who close a pipe do, and in whatever order, what
-- was read and what is in the buffer is what Writes put in, in order, and the buffer is within the
-- capacity that the pipe was made with.
pub steps-IsFifo : (cap : ℕ) (t : Traffic) → Steps (fresh cap) t → IsFifo cap t
steps-IsFifo cap _ here = record { in_order = refl; bounded = omega arith; same_cap = refl }
steps-IsFifo cap _ (then_step {u} path step) = step-IsFifo (steps-IsFifo cap u path) step
