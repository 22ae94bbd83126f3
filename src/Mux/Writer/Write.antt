-- ===== src/Mux/Writer/Write.antt =====
-- Write: all bytes are taken, and the buffer stays within its size.
use go_rsyncfs.Base.{
  ℕ, zero, suc, ◌+◌, ◌-◌, ◌≤◌, ◌<◌, ◌≡◌, refl, sym, ap, ◌∙◌, min, false, List, [], ◌∷◌, ◌++◌,
  append-nil, append_assoc, Bytes, none, some, length, length-append, length-take, length-drop,
  take, drop, take-append-drop, leb, ◌==◌, map, arith, inl, inr, Bool-cases,
}
use mathlib.Core.Path.{subst}
use go_rsyncfs.Mux.Writer.{Writer, Written, append_chunk, make_room, write_loop, write}
use go_rsyncfs.Mux.Writer.Refines.{Item, byte, content, Holds, Keeps, flush-Keeps, map_byte-append}

-- More bytes in the buffer.
append-Holds :
    (w : Writer) {items : List Item} (s : Bytes)
    → Holds w items
    → Holds (record w { buf = w.buf ++ s }) (items ++ map byte s)
append-Holds w s h = record {
  frames = h.frames;
  handed_on = h.handed_on;
  whole_frames = h.whole_frames;
  all_items = rw map_byte-append (
      sym (append_assoc (content h.frames) (map byte w.buf) (map byte s))
      ∙ ap (λ xs. xs ++ map byte s) h.all_items);
}

-- What a round of Write starts from: a writer that has room.
make_room-Keeps :
    (w : Writer) {items : List Item}
    → 0 < w.buf_size
    → Holds w items
    → (Keeps (w.buf_size - 1) w (make_room w) items)
unfolding make_room
make_room-Keeps w pos h = elim (Bool-cases (leb w.buf_size (length w.buf))) [
  | inl full ↦
      let k = flush-Keeps w h in
      rw full (record {
        no_error = k.no_error;
        same_size = k.same_size;
        kept_back = omega (arith, k.kept_back);
        holds = k.holds;
      })
  | inr room ↦
      rw room (record { no_error = refl; same_size = refl; kept_back = ground arith; holds = h })
]

-- Write takes all bytes, and keeps no more back than the buffer may hold.
pub record Takes (w : Writer) (n : ℕ) (p : Bytes) (o : Written × ℕ) (items : List Item)
    : Type 0 where
  pub kept : Keeps w.buf_size w o.0 (items ++ map byte p)
  pub count : o.1 ≡ n + length p

Takes-join :
    (w w' : Writer) {items : List Item} (n k : ℕ) (p : Bytes) {o : Written × ℕ}
    → w'.buf_size ≡ w.buf_size
    → k ≤ length p
    → Takes w' (n + k) (drop k p) o (items ++ map byte (take k p))
    → Takes w n p o items
Takes-join w w' {items} n k p {o} same le t = record {
  kept =
      subst (Keeps w.buf_size w o.0)
        (append_assoc items (map byte (take k p)) (map byte (drop k p))
          ∙ ap (λ xs. items ++ xs)
              (sym (map_byte-append (take k p) (drop k p)) ∙ ap (map byte) (take-append-drop k p)))
        (record {
          no_error = t.kept.no_error;
          same_size = t.kept.same_size ∙ same;
          kept_back = omega (arith, t.kept.kept_back, same);
          holds = t.kept.holds;
        });
  count = omega (arith, t.count, length-drop k p);
}

write_loop-Takes :
    (fuel : ℕ) (w : Writer) {items : List Item} (n : ℕ) (p : Bytes)
    → 0 < w.buf_size
    → length w.buf ≤ w.buf_size
    → length p ≤ fuel
    → Holds w items
    → Takes w n p (write_loop fuel w n p) items
unfolding write_loop
write_loop-Takes fuel w {items} n [] pos le enough h = record {
  kept = record {
    no_error = refl;
    same_size = refl;
    kept_back = le;
    holds = subst (Holds w) (sym (append-nil items)) h;
  };
  count = omega arith;
}
write_loop-Takes zero w n (b ∷ p) pos le enough h = absurd (omega arith)
write_loop-Takes (suc fuel) w {items} n (b ∷ p) pos le enough h =
    let m = make_room-Keeps w pos h in
    let w' = (make_room w).0 in
    let k = min (w'.buf_size - length w'.buf) (length (b ∷ p)) in
    let t =
      write_loop-Takes fuel (append_chunk w' k (b ∷ p)) (n + k) (drop k (b ∷ p))
        (omega (arith, m.same_size))
        (omega (
          arith,
          length-append {0} w'.buf (take k (b ∷ p)),
          length-take k (b ∷ p),
          m.kept_back,
          m.same_size,
        ))
        (omega (arith, length-drop k (b ∷ p), m.same_size, m.kept_back))
        (append-Holds w' (take k (b ∷ p)) m.holds) in
    subst
      (λ e.
        Takes w n (b ∷ p)
          (elim e [
            | some x ↦ ((w', some x), n)
            | none ↦ write_loop fuel (append_chunk w' k (b ∷ p)) (n + k) (drop k (b ∷ p))
          ])
          items)
      (sym (ap (λ o. o.1) m.no_error))
      (Takes-join w (append_chunk w' k (b ∷ p)) n k (b ∷ p) m.same_size (omega arith) t)

pub write-Takes :
    (w : Writer) {items : List Item} (p : Bytes)
    → 0 < w.buf_size
    → length w.buf ≤ w.buf_size
    → Holds w items
    → Takes w 0 p (write w p) items
unfolding write
write-Takes w p pos le h = rw bounded (write_loop-Takes (length p) w 0 p pos le (omega arith) h)
  where
    bounded : (w.buf_size == 0) ≡ false
    bounded = ground arith
