-- ===== src/Mux/Writer/Refines.antt =====
-- The Writer against what its caller means: bytes and messages in order. Where the frames of the
-- data end is forgotten.
use go_rsyncfs.Base.{
  ℕ, zero, suc, ◌≤◌, ◌<◌, ◌≡◌, refl, sym, ap, ◌∙◌, min, List, [], ◌∷◌, ◌++◌, append-nil,
  append_assoc, Bytes, none, length, length-take, length-drop, take, drop, take-append-drop, ◌==◌,
  if◌then◌else◌, map, All, All-append, arith,
}
use mathlib.Core.Path.{subst}
use go_rsyncfs.Io.{Output, wrote, ◌>>>◌}
use go_rsyncfs.Mux.Frame.{
  write_frame, write_frame-frame_bytes, max_payload, msg_data, Frame, IsFrame, frame_bytes,
}
use go_rsyncfs.Mux.Writer.{
  Writer, Written, flush_frames, hand_on, flush_buf, flush, send_payload, send_msg,
}

pub data Item : Type 0 where
  byte : ℕ → Item
  msg : ℕ → Bytes → Item

-- A frame as its reader takes it: MSG_DATA is its bytes, any other frame a message.
unfoldable pub items_of : Frame → List Item
items_of (code, payload) = if code == msg_data then map byte payload else msg code payload ∷ []

unfoldable pub content : List Frame → List Item
content [] = []
content (f ∷ fs) = items_of f ++ content fs

unfoldable pub frames_bytes : List Frame → Bytes
frames_bytes [] = []
frames_bytes (f ∷ fs) = frame_bytes f ++ frames_bytes fs

-- The writer has been given `items`: some are in frames that were handed on, the others are bytes
-- in its buffer.
pub record Holds (w : Writer) (items : List Item) : Type 0 where
  pub frames : List Frame
  pub handed_on : w.out ≡ frames_bytes frames
  pub whole_frames : All IsFrame frames
  pub all_items : content frames ++ map byte w.buf ≡ items

content-append : (fs gs : List Frame) → content (fs ++ gs) ≡ content fs ++ content gs
unfolding content
content-append [] gs = refl
content-append (f ∷ fs) gs = rw (content-append fs gs, append_assoc)

frames_bytes-append :
    (fs gs : List Frame) → frames_bytes (fs ++ gs) ≡ frames_bytes fs ++ frames_bytes gs
unfolding frames_bytes
frames_bytes-append [] gs = refl
frames_bytes-append (f ∷ fs) gs = rw (frames_bytes-append fs gs, append_assoc)

pub map_byte-append : (s t : Bytes) → map byte (s ++ t) ≡ map byte s ++ map byte t
map_byte-append [] t = refl
map_byte-append (b ∷ s) t = ap (◌∷◌ (byte b)) (map_byte-append s t)

-- What an output has written as frames, with no error.
record Framed (o : Output) (items : List Item) : Type 0 where
  new : List Frame
  output : o ≡ wrote (frames_bytes new)
  new_frames : All IsFrame new
  new_items : content new ≡ items

write_frame-Framed :
    (code : ℕ) (payload : Bytes)
    → code < 256
    → length payload ≤ max_payload
    → Framed (write_frame code payload) (items_of (code, payload))
unfolding frames_bytes content
write_frame-Framed code payload c h = record {
  new = (code, payload) ∷ [];
  output = rw append-nil (write_frame-frame_bytes code payload h);
  new_frames = ((c, h), tt);
  new_items = append-nil (items_of (code, payload));
}

>>>-Framed :
    {o p : Output} {xs ys : List Item} → Framed o xs → Framed p ys → Framed (o >>> p) (xs ++ ys)
>>>-Framed f g = record {
  new = f.new ++ g.new;
  output = rw (f.output, g.output, frames_bytes-append f.new g.new);
  new_frames = All-append IsFrame f.new g.new f.new_frames g.new_frames;
  new_items = content-append f.new g.new ∙ rw (f.new_items, g.new_items);
}

flush_frames-Framed :
    (fuel : ℕ) (s : Bytes) → length s ≤ fuel → Framed (flush_frames fuel s) (map byte s)
unfolding flush_frames frames_bytes content items_of
flush_frames-Framed fuel [] h = record {
  new = [];
  output = refl;
  new_frames = tt;
  new_items = refl;
}
flush_frames-Framed zero (b ∷ s) h = absurd (omega arith)
flush_frames-Framed (suc fuel) (b ∷ s) h =
    let n = min max_payload (length (b ∷ s)) in
    let first =
      write_frame-Framed msg_data (take n (b ∷ s)) (omega arith)
        (omega (arith, length-take n (b ∷ s))) in
    let later = flush_frames-Framed fuel (drop n (b ∷ s)) (omega (arith, length-drop n (b ∷ s))) in
    subst (λ xs. Framed (flush_frames (suc fuel) (b ∷ s)) xs)
      (sym (map_byte-append (take n (b ∷ s)) (drop n (b ∷ s)))
        ∙ ap (map byte) (take-append-drop n (b ∷ s)))
      (>>>-Framed first later)

-- The outcome of a call: no error, the same capacity, at most `room` bytes kept back, and the items.
pub record Keeps (room : ℕ) (w : Writer) (o : Written) (items : List Item) : Type 0 where
  pub no_error : o ≡ (o.0, none)
  pub same_size : o.0.buf_size ≡ w.buf_size
  pub kept_back : length o.0.buf ≤ room
  pub holds : Holds o.0 items

-- An output handed on by a writer with an empty buffer.
hand_on-Keeps :
    (w : Writer) (o : Output) (before new : List Item)
    → w.buf ≡ []
    → Holds w before
    → Framed o new
    → Keeps 0 w (hand_on w o) (before ++ new)
unfolding hand_on
hand_on-Keeps w o before new idle h f = record {
  no_error = rw f.output;
  same_size = refl;
  kept_back = rw idle (omega arith);
  holds = record {
    frames = h.frames ++ f.new;
    handed_on = rw (f.output, h.handed_on, frames_bytes-append h.frames f.new);
    whole_frames = All-append IsFrame h.frames f.new h.whole_frames f.new_frames;
    all_items =
        rw (idle, append-nil, content-append, f.new_items)
          (ap (λ xs. xs ++ new) (sym (append-nil (content h.frames)) ∙ rw idle at h.all_items));
  };
}

pub Keeps-same_size :
    {room : ℕ} {w w' : Writer} {o : Written} {items : List Item}
    → w'.buf_size ≡ w.buf_size
    → Keeps room w' o items
    → Keeps room w o items
Keeps-same_size e k = record {
  no_error = k.no_error;
  same_size = k.same_size ∙ e;
  kept_back = k.kept_back;
  holds = k.holds;
}

-- The writer with the bytes of its buffer put aside holds the items before them.
emptied :
    (w : Writer) {items : List Item} (h : Holds w items)
    → Holds (record w { buf = [] }) (content h.frames)
emptied w h = record {
  frames = h.frames;
  handed_on = h.handed_on;
  whole_frames = h.whole_frames;
  all_items = append-nil (content h.frames);
}

flush_buf-Keeps :
    (w : Writer) {items : List Item} (buf : Bytes)
    → w.buf ≡ buf
    → Holds w items
    → Keeps 0 w (flush_buf w buf) items
unfolding flush_buf
flush_buf-Keeps w [] e h = record {
  no_error = refl;
  same_size = refl;
  kept_back = rw e (omega arith);
  holds = h;
}
flush_buf-Keeps w {items} (b ∷ s) e h =
    subst (λ xs. Keeps 0 w (flush_buf w (b ∷ s)) xs) (rw e at h.all_items)
      (Keeps-same_size refl (
        hand_on-Keeps (record w { buf = [] }) (flush_frames (length (b ∷ s)) (b ∷ s))
          (content h.frames) (map byte (b ∷ s)) refl (emptied w h)
          (flush_frames-Framed (length (b ∷ s)) (b ∷ s) (omega arith))))

pub flush-Keeps : (w : Writer) {items : List Item} → Holds w items → Keeps 0 w (flush w) items
unfolding flush
flush-Keeps w h = flush_buf-Keeps w w.buf refl h

empty_of_length : (s : Bytes) → length s ≤ 0 → s ≡ []
empty_of_length [] h = refl
empty_of_length (b ∷ s) h = absurd (omega arith)

pub send_msg-Keeps :
    (w : Writer) {items : List Item} (code : ℕ) (payload : Bytes)
    → code < 256
    → length payload ≤ max_payload
    → Holds w items
    → Keeps 0 w (send_msg w code payload) (items ++ items_of (code, payload))
unfolding send_msg send_payload
send_msg-Keeps w {items} code payload c l h =
    let k = flush-Keeps w h in
    subst (λ o. Keeps 0 w o (items ++ items_of (code, payload)))
      (sym (ap (λ o. send_payload o code payload) k.no_error))
      (Keeps-same_size k.same_size (
        hand_on-Keeps (flush w).0 (write_frame code payload) items (items_of (code, payload))
          (empty_of_length (flush w).0.buf k.kept_back) k.holds
          (write_frame-Framed code payload c l)))
