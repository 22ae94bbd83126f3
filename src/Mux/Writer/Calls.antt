-- ===== src/Mux/Writer/Calls.antt =====
-- Any run of calls of the Writer.
mod Examples
use go_rsyncfs.Base.{
  ℕ, zero, suc, ◌+◌, ◌-◌, ◌≤◌, ◌<◌, ◌≡◌, refl, sym, ap, ◌∙◌, min, Bool, true, false, List, [], ◌∷◌,
  ◌++◌, append-nil, append_assoc, Bytes, Option, none, some, length, length-append, length-take,
  length-drop, take, drop, take-append-drop, leb, ◌==◌, if◌then◌else◌, map, All, arith, inl, inr,
  Bool-cases,
}
use go_rsyncfs.Io.{Error}
use mathlib.Core.Path.{subst}
use go_rsyncfs.Mux.Frame.{max_payload, Frame, IsFrame}
use go_rsyncfs.Mux.Writer.{
  Writer, Written, flush, send_msg, append_chunk, make_room, write_loop, write,
}
use go_rsyncfs.Mux.Writer.Refines.{
  Item, byte, msg, items_of, content, frames_bytes, Holds, Keeps, flush-Keeps, send_msg-Keeps,
  map_byte-append, Keeps-same_size,
}
use go_rsyncfs.Mux.Writer.Write.{write-Takes}

-- A call of the Writer, and what its caller means by it.
pub data Call : Type 0 where
  write_call : Bytes → Call
  flush_call : Call
  send_call : ℕ → Bytes → Call

unfoldable pub meaning : List Call → List Item
unfolding items_of
meaning [] = []
meaning (write_call p ∷ cs) = map byte p ++ meaning cs
meaning (flush_call ∷ cs) = meaning cs
meaning (send_call code payload ∷ cs) = items_of (code, payload) ++ meaning cs

abbrev pub IsCall : Call → Type 0
IsCall (write_call p) = Unit
IsCall flush_call = Unit
IsCall (send_call code payload) = (code < 256) × (length payload ≤ max_payload)

pub make_call : Writer → Call → Written
make_call w (write_call p) = (write w p).0
make_call w flush_call = flush w
make_call w (send_call code payload) = send_msg w code payload

-- The calls in order; an error stops them.
pub make_calls : Writer → List Call → Written
make_calls w [] = (w, none)
make_calls w (c ∷ cs) =
    let (w', e) = make_call w c in elim e [ some x ↦ (w', some x) | none ↦ make_calls w' cs ]

Keeps-room :
    {room size : ℕ} {w : Writer} {o : Written} {items : List Item}
    → room ≤ size
    → Keeps room w o items
    → Keeps size w o items
Keeps-room le k = record {
  no_error = k.no_error;
  same_size = k.same_size;
  kept_back = omega (arith, k.kept_back);
  holds = k.holds;
}

make_call-Keeps :
    (w : Writer) {items : List Item} (c : Call)
    → 0 < w.buf_size
    → length w.buf ≤ w.buf_size
    → IsCall c
    → Holds w items
    → Keeps w.buf_size w (make_call w c) (items ++ meaning (c ∷ []))
unfolding make_call meaning
make_call-Keeps w {items} (write_call p) pos le v h =
    rw append-nil ((write-Takes w p pos le h).kept)
make_call-Keeps w {items} flush_call pos le v h =
    rw append-nil (Keeps-room (omega arith) (flush-Keeps w h))
make_call-Keeps w {items} (send_call code payload) pos le v h =
    rw append-nil (Keeps-room (omega arith) (send_msg-Keeps w code payload v.0 v.1 h))

meaning-cons : (c : Call) (cs : List Call) → meaning (c ∷ cs) ≡ meaning (c ∷ []) ++ meaning cs
unfolding meaning
meaning-cons (write_call p) cs = rw append-nil
meaning-cons flush_call cs = refl
meaning-cons (send_call code payload) cs = rw append-nil

make_calls_step :
    (w : Writer) (c : Call) (cs : List Call)
    → make_call w c ≡ ((make_call w c).0, none)
    → make_calls w (c ∷ cs) ≡ make_calls (make_call w c).0 cs
unfolding make_calls
make_calls_step w c cs e =
    ap
      (λ (x : Option Error). elim x [
        | some y ↦ ((make_call w c).0, some y)
        | none ↦ make_calls (make_call w c).0 cs
      ])
      (ap (λ o. o.1) e)

-- A writer with a capacity that is not 0 and a buffer within it, which holds `items`, holds, after
-- any calls of Write, Flush and SendMsg, those items and what the calls mean, in order, where each
-- message sent has a code of one byte and at most 2^24-1 bytes. No such call fails; the capacity
-- stays, and the buffer is within it.
pub make_calls-Keeps :
    (w : Writer) (items : List Item) (cs : List Call)
    → 0 < w.buf_size
    → length w.buf ≤ w.buf_size
    → All IsCall cs
    → Holds w items
    → Keeps w.buf_size w (make_calls w cs) (items ++ meaning cs)
unfolding make_calls meaning
make_calls-Keeps w items [] pos le v h = record {
  no_error = refl;
  same_size = refl;
  kept_back = le;
  holds = subst (Holds w) (sym (append-nil items)) h;
}
make_calls-Keeps w items (c ∷ cs) pos le v h =
    let k = make_call-Keeps w c pos le v.0 h in
    let w' = (make_call w c).0 in
    let rest =
      make_calls-Keeps w' (items ++ meaning (c ∷ [])) cs (omega (arith, k.same_size))
        (omega (arith, k.same_size, k.kept_back)) v.1 k.holds in
    subst (λ o. Keeps w.buf_size w o (items ++ meaning (c ∷ cs)))
      (sym (make_calls_step w c cs k.no_error))
      (subst (Keeps w.buf_size w (make_calls w' cs))
        (append_assoc items (meaning (c ∷ [])) (meaning cs)
          ∙ ap (λ xs. items ++ xs) (sym (meaning-cons c cs)))
        (Keeps-same_size k.same_size (Keeps-room (omega (arith, k.same_size)) rest)))
