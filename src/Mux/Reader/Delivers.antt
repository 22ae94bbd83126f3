-- ===== src/Mux/Reader/Delivers.antt =====
-- The Reader on a stream of frames: which bytes and which message its calls deliver.
use go_rsyncfs.Base.{
  ℕ, zero, suc, ◌≤◌, ◌<◌, ◌≡◌, refl, sym, ap, ◌∙◌, inl, inr, true, Bool-cases, ◌||◌, List, [], ◌∷◌,
  ◌++◌, append_assoc, Bytes, length, length-append, length-take, take, drop, take-append-drop, ◌==◌,
  if◌then◌else◌, arith, All,
}
use mathlib.Core.Path.{subst}
use go_rsyncfs.Io.{Result, ok, Reader, bind, return}
use go_rsyncfs.Mux.Frame.{
  read_frame, Frame, IsFrame, frame_bytes, is_info_message, msg_data, read_frame-write_frame,
  length-frame_bytes,
}
use go_rsyncfs.Mux.Writer.Refines.{frames_bytes}
use go_rsyncfs.Mux.Reader.{taken, on_frame, fetch, read}

-- A frame that Read does not stop at: data, or one for the log.
abbrev pub IsQuiet : Frame → Type 0
IsQuiet f = IsFrame f × (f.0 == msg_data || is_info_message f.0 ≡ true)

-- The data in frames.
unfoldable pub data_of : List Frame → Bytes
data_of [] = []
data_of (f ∷ fs) = if f.0 == msg_data then f.1 ++ data_of fs else data_of fs

-- What a loop has fetched from `fs`: the first data, and the frames that are left.
pub record Fetched (rest : Bytes) (fs : List Frame) (o : Result Bytes) : Type 0 where
  pub payload : Bytes
  pub left : List Frame
  pub result : o ≡ ok payload (frames_bytes left ++ rest)
  pub some_bytes : 0 < length payload
  pub quiet_left : All IsQuiet left
  pub split : payload ++ data_of left ≡ data_of fs

module _ (rest : Bytes) where
  pub next_frame :
      (f : Frame) (fs : List Frame)
      → IsFrame f
      → read_frame (frames_bytes (f ∷ fs) ++ rest) ≡ ok f (frames_bytes fs ++ rest)
  unfolding frames_bytes
  next_frame (code, payload) fs v =
      rw (append_assoc (frame_bytes (code, payload)) (frames_bytes fs) rest)
        (read_frame-write_frame code payload (frames_bytes fs ++ rest) v.0 v.1)

  passes :
      {fs gs : List Frame} {o : Result Bytes}
      → data_of fs ≡ data_of gs
      → Fetched rest fs o
      → Fetched rest gs o
  passes e f = record {
    payload = f.payload;
    left = f.left;
    result = f.result;
    some_bytes = f.some_bytes;
    quiet_left = f.quiet_left;
    split = f.split ∙ e;
  }

  data_frame :
      (more : Reader Bytes) (code : ℕ) (payload : Bytes) (fs : List Frame)
      → code == msg_data ≡ true
      → All IsQuiet fs
      → 0 < length (payload ++ data_of fs)
      → (0 < length (data_of fs) → Fetched rest fs (more (frames_bytes fs ++ rest)))
      → Fetched rest ((code, payload) ∷ fs) (taken more payload (frames_bytes fs ++ rest))
  unfolding data_of
  data_frame more code [] fs is_data v pos ih = passes (sym (rw is_data)) (ih pos)
  data_frame more code (b ∷ p) fs is_data v pos ih = record {
    payload = b ∷ p;
    left = fs;
    result = refl;
    some_bytes = omega arith;
    quiet_left = v;
    split = sym (rw is_data);
  }

  fetch_quiet :
      (fuel : ℕ) (fs : List Frame)
      → length fs < fuel
      → All IsQuiet fs
      → 0 < length (data_of fs)
      → Fetched rest fs (fetch fuel (frames_bytes fs ++ rest))
  unfolding fetch data_of on_frame
  fetch_quiet zero fs h v pos = absurd (omega arith)
  fetch_quiet (suc fuel) [] h v pos = absurd (omega arith)
  fetch_quiet (suc fuel) ((code, payload) ∷ fs) h v pos =
      rw (next_frame (code, payload) fs v.0.0) (elim (Bool-cases (code == msg_data)) [
        | inl is_data ↦
            rw (is_data, on_frame)
              (data_frame (fetch fuel) code payload fs is_data v.1 (rw is_data at pos)
                (λ more. fetch_quiet fuel fs (omega arith) v.1 more))
        | inr other ↦
            let info : is_info_message code ≡ true = rw other at v.0.1 in
            rw (other, info)
              (passes (sym (rw other)) (fetch_quiet fuel fs (omega arith) v.1 (rw other at pos)))
      ])

-- What a Read gives of the bytes to come.
pub record Delivered (rest : Bytes) (n : ℕ) (all : Bytes) (o : Result (Bytes × Bytes))
    : Type 0 where
  pub given : Bytes
  pub kept : Bytes
  pub left : List Frame
  pub result : o ≡ ok (given, kept) (frames_bytes left ++ rest)
  pub quiet_left : All IsQuiet left
  pub in_order : given ++ (kept ++ data_of left) ≡ all
  pub at_most : length given ≤ n
  pub progress : 0 < n → 0 < length given

length-frames_bytes-le : (fs : List Frame) → All IsFrame fs → length fs ≤ length (frames_bytes fs)
unfolding frames_bytes
length-frames_bytes-le [] v = omega arith
length-frames_bytes-le (f ∷ fs) v = omega (
  arith,
  length-append {0} (frame_bytes f) (frames_bytes fs),
  length-frame_bytes f v.0,
  length-frames_bytes-le fs v.1,
)

All-frames : (fs : List Frame) → All IsQuiet fs → All IsFrame fs
All-frames [] v = tt
All-frames (f ∷ fs) v = (v.0.0, All-frames fs v.1)

module _ (rest : Bytes) (n : ℕ) where
  from_buffer :
      (payload : Bytes) (fs : List Frame)
      → 0 < length payload
      → All IsQuiet fs
      → Delivered rest n
          (payload ++ data_of fs)
          (ok (take n payload, drop n payload) (frames_bytes fs ++ rest))
  from_buffer payload fs pos v = record {
    given = take n payload;
    kept = drop n payload;
    left = fs;
    result = refl;
    quiet_left = v;
    in_order =
        sym (append_assoc (take n payload) (drop n payload) (data_of fs))
        ∙ ap (λ (t : Bytes). t ++ data_of fs) (take-append-drop n payload);
    at_most = omega (arith, length-take n payload);
    progress = λ some_room. omega (arith, length-take n payload);
  }

  from_stream :
      (fs : List Frame) (o : Result Bytes)
      → Fetched rest fs o
      → Delivered rest n (data_of fs) (bind o (λ payload. return (take n payload, drop n payload)))
  from_stream fs o f = rw f.result (
      subst
        (λ all.
          Delivered rest n all
            (ok (take n f.payload, drop n f.payload) (frames_bytes f.left ++ rest)))
        f.split (from_buffer f.payload f.left f.some_bytes f.quiet_left))

  -- While data is to come in frames that are data or for the log, a Read gives the next bytes of
  -- it, at most as many as it has room for and one at least if it has room, and loses none.
  pub read-Delivered :
      (buf : Bytes) (fs : List Frame)
      → All IsQuiet fs
      → 0 < length (buf ++ data_of fs)
      → Delivered rest n (buf ++ data_of fs) (read n buf (frames_bytes fs ++ rest))
  unfolding read
  read-Delivered [] fs v pos = from_stream fs _ (
      fetch_quiet rest _ fs
        (omega (
          arith,
          length-frames_bytes-le fs (All-frames fs v),
          length-append {0} (frames_bytes fs) rest,
        ))
        v pos)
  read-Delivered (b ∷ buf) fs v pos = from_buffer (b ∷ buf) fs (omega arith) v
