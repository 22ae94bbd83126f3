-- ===== src/Mux/Reader/Messages.antt =====
-- RecvMsg and ReadDataChunk on a stream of frames.
use go_rsyncfs.Base.{
  ℕ, zero, suc, ◌≤◌, ◌<◌, ◌≡◌, refl, true, false, List, [], ◌∷◌, ◌++◌, Bytes, length, length-append,
  ◌==◌, arith, All,
}
use go_rsyncfs.Io.{ok}
use go_rsyncfs.Mux.Frame.{
  Frame, IsFrame, frame_bytes, is_info_message, msg_data, length-frame_bytes,
}
use go_rsyncfs.Mux.Writer.Refines.{frames_bytes}
use go_rsyncfs.Mux.Reader.{
  on_chunk, fetch_chunk, read_data_chunk, on_message, fetch_message, recv_msg,
}
use go_rsyncfs.Mux.Reader.Delivers.{next_frame}

abbrev pub IsData : Frame → Type 0
IsData f = IsFrame f × (f.0 == msg_data ≡ true)

abbrev pub IsInfo : Frame → Type 0
IsInfo f = IsFrame f × ((f.0 == msg_data ≡ false) × (is_info_message f.0 ≡ true))

length-frames_bytes_prefix :
    (fs gs : List Frame) → All IsFrame fs → length fs ≤ length (frames_bytes (fs ++ gs))
unfolding frames_bytes
length-frames_bytes_prefix [] gs v = omega arith
length-frames_bytes_prefix (f ∷ fs) gs v = omega (
  arith,
  length-append {0} (frame_bytes f) (frames_bytes (fs ++ gs)),
  length-frame_bytes f v.0,
  length-frames_bytes_prefix fs gs v.1,
)

data_frames : (fs : List Frame) → All IsData fs → All IsFrame fs
data_frames [] v = tt
data_frames (f ∷ fs) v = (v.0.0, data_frames fs v.1)

info_frames : (fs : List Frame) → All IsInfo fs → All IsFrame fs
info_frames [] v = tt
info_frames (f ∷ fs) v = (v.0.0, info_frames fs v.1)

module _ (rest : Bytes) where
  enough_fuel :
      (fs gs : List Frame)
      → All IsFrame fs
      → length fs < suc (length (frames_bytes (fs ++ gs) ++ rest))
  enough_fuel fs gs v =
      omega (
        arith,
        length-frames_bytes_prefix fs gs v,
        length-append {0} (frames_bytes (fs ++ gs)) rest,
      )

  skips_data :
      (fuel : ℕ) (fs : List Frame) (m : Frame)
      → length fs < fuel
      → All IsData fs
      → IsFrame m
      → m.0 == msg_data ≡ false
      → fetch_message fuel (frames_bytes (fs ++ (m ∷ [])) ++ rest) ≡ ok m rest
  unfolding fetch_message on_message
  skips_data zero fs m h v w other = absurd (omega arith)
  skips_data (suc fuel) [] m h v w other =
      rw (next_frame rest m [] w) (rw other (unfold frames_bytes in refl))
  skips_data (suc fuel) (f ∷ fs) m h v w other =
      rw (next_frame rest f (fs ++ (m ∷ [])) v.0.0)
        (rw v.0.1 (skips_data fuel fs m (omega arith) v.1 w other))

  skips_info :
      (fuel : ℕ) (fs : List Frame) (d : Frame) (later : List Frame)
      → length fs < fuel
      → All IsInfo fs
      → IsData d
      → fetch_chunk fuel (frames_bytes (fs ++ (d ∷ later)) ++ rest)
        ≡ ok d.1 (frames_bytes later ++ rest)
  unfolding fetch_chunk on_chunk
  skips_info zero fs d later h v w = absurd (omega arith)
  skips_info (suc fuel) [] d later h v w = rw (next_frame rest d later w.0) (rw w.1)
  skips_info (suc fuel) (f ∷ fs) d later h v w =
      rw (next_frame rest f (fs ++ (d ∷ later)) v.0.0)
        (rw (v.0.1.0, v.0.1.1) (skips_info fuel fs d later (omega arith) v.1 w))

  -- RecvMsg returns the first frame that is not data, whatever data stands before it, and leaves
  -- what follows.
  pub recv_msg_skips_data :
      (fs : List Frame) (m : Frame)
      → All IsData fs
      → IsFrame m
      → m.0 == msg_data ≡ false
      → recv_msg (frames_bytes (fs ++ (m ∷ [])) ++ rest) ≡ ok m rest
  unfolding recv_msg
  recv_msg_skips_data fs m v w other =
      skips_data _ fs m (enough_fuel fs (m ∷ []) (data_frames fs v)) v w other

  -- ReadDataChunk returns what is buffered and the payload of the first data frame, empty or not,
  -- behind any frames for the log, and leaves the frames that follow.
  pub read_data_chunk_skips_info :
      (buf : Bytes) (fs : List Frame) (d : Frame) (later : List Frame)
      → All IsInfo fs
      → IsData d
      → read_data_chunk buf (frames_bytes (fs ++ (d ∷ later)) ++ rest)
        ≡ ok (buf ++ d.1) (frames_bytes later ++ rest)
  unfolding read_data_chunk
  read_data_chunk_skips_info buf fs d later v w = rw (
      skips_info (suc (length (frames_bytes (fs ++ (d ∷ later)) ++ rest))) fs d later
        (enough_fuel fs (d ∷ later) (info_frames fs v)) v w)
