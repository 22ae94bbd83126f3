-- ===== src/Mux/Reader/Examples.antt =====
-- Concrete streams of frames, and the theorems at them.
use go_rsyncfs.Base.{◌≡◌, refl, true, ap, List, [], ◌∷◌, ◌++◌, Bytes, length, arith, All}
use go_rsyncfs.Io.{ok}
use go_rsyncfs.Mux.Frame.{Frame, is_info_message}
use go_rsyncfs.Mux.Writer.Refines.{frames_bytes}
use go_rsyncfs.Mux.Reader.{read, read_data_chunk, recv_msg}
use go_rsyncfs.Mux.Reader.Total.{Ends, NonEmpty, read-Ends}
use go_rsyncfs.Mux.Reader.Delivers.{IsQuiet, data_of, Delivered}
use go_rsyncfs.Mux.Reader.Reads.{reads, total, reads-Delivered}
use go_rsyncfs.Mux.Reader.Messages.{recv_msg_skips_data, read_data_chunk_skips_info}

-- Data, a message for the log, an empty data frame, and data.
abbrev stream : List Frame
stream = (0, 1 ∷ 2 ∷ 3 ∷ []) ∷ (2, b'h' ∷ []) ∷ (0, []) ∷ (0, 4 ∷ []) ∷ []

stream-IsQuiet : All IsQuiet stream
unfolding is_info_message
stream-IsQuiet = (
  ((omega arith, omega arith), refl),
  (
    ((omega arith, omega arith), refl),
    (((omega arith, omega arith), refl), (((omega arith, omega arith), refl), tt)),
  ),
)

stream_data : data_of stream ≡ 1 ∷ 2 ∷ 3 ∷ 4 ∷ []
unfolding data_of
stream_data = refl

read-Ends_example :
    Ends (λ (r : Bytes × Bytes). NonEmpty r.0) (read 4 [] (0 ∷ 0 ∷ 0 ∷ 7 ∷ 1 ∷ 0 ∷ []))
read-Ends_example = read-Ends 4 [] (0 ∷ 0 ∷ 0 ∷ 7 ∷ 1 ∷ 0 ∷ []) (omega arith)

reads-Delivered_example :
    Delivered
      (7 ∷ [])
      (total (2 ∷ 2 ∷ 1 ∷ []))
      ((9 ∷ []) ++ data_of stream)
      (reads (2 ∷ 2 ∷ 1 ∷ []) (9 ∷ []) (frames_bytes stream ++ (7 ∷ [])))
reads-Delivered_example =
    reads-Delivered (7 ∷ []) (2 ∷ 2 ∷ 1 ∷ []) (9 ∷ []) stream
      (omega arith, (omega arith, (omega arith, tt))) (omega (arith, ap length stream_data))
      stream-IsQuiet

recv_msg_skips_data_run :
    recv_msg (frames_bytes (((0, 1 ∷ []) ∷ []) ++ ((100, 5 ∷ []) ∷ [])) ++ (7 ∷ []))
    ≡ ok (100, 5 ∷ []) (7 ∷ [])
recv_msg_skips_data_run =
    recv_msg_skips_data (7 ∷ []) ((0, 1 ∷ []) ∷ []) (100, 5 ∷ [])
      (((omega arith, omega arith), refl), tt) (omega arith, omega arith) refl

info_here : is_info_message 2 ≡ true
unfolding is_info_message
info_here = refl

read_data_chunk_skips_info_run :
    read_data_chunk
      (9 ∷ [])
      (frames_bytes (((2, b'h' ∷ []) ∷ []) ++ ((0, 1 ∷ []) ∷ [])) ++ (7 ∷ []))
    ≡ ok ((9 ∷ []) ++ (1 ∷ [])) (frames_bytes [] ++ (7 ∷ []))
read_data_chunk_skips_info_run =
    read_data_chunk_skips_info (7 ∷ []) (9 ∷ []) ((2, b'h' ∷ []) ∷ []) (0, 1 ∷ []) []
      (((omega arith, omega arith), (refl, info_here)), tt) ((omega arith, omega arith), refl)
