-- ===== src/Mux/Reader/Reads.antt =====
-- Several Reads in a row.
use go_rsyncfs.Base.{
  ℕ, ◌+◌, ◌≤◌, ◌<◌, refl, ap, ◌∙◌, List, [], ◌∷◌, ◌++◌, append_assoc, Bytes, length, length-append,
  arith, All,
}
use go_rsyncfs.Io.{Reader, ◌>>=◌, return}
use go_rsyncfs.Mux.Frame.{Frame}
use go_rsyncfs.Mux.Writer.Refines.{frames_bytes}
use go_rsyncfs.Mux.Reader.{read}
use go_rsyncfs.Mux.Reader.Delivers.{IsQuiet, data_of, Delivered, read-Delivered}

-- Reads into buffers of these sizes, and all that they gave.
pub reads : List ℕ → Bytes → Reader (Bytes × Bytes)
reads [] buf = return ([], buf)
reads (n ∷ ns) buf = do
  (given, buf') ← read n buf
  (more, buf'') ← reads ns buf'
  return (given ++ more, buf'')

abbrev pub total : List ℕ → ℕ
total [] = 0
total (n ∷ ns) = n + total ns

-- Reads with room, of no more data in all than is to come in frames that are data or for the log,
-- succeed: together they give the next bytes in order, and what they leave is what is left.
pub reads-Delivered :
    (rest : Bytes) (ns : List ℕ) (buf : Bytes) (fs : List Frame)
    → All (λ n. 0 < n) ns
    → total ns ≤ length (buf ++ data_of fs)
    → All IsQuiet fs
    → Delivered rest (total ns) (buf ++ data_of fs) (reads ns buf (frames_bytes fs ++ rest))
unfolding reads
reads-Delivered rest [] buf fs room enough v = record {
  given = [];
  kept = buf;
  left = fs;
  result = refl;
  quiet_left = v;
  in_order = refl;
  at_most = omega arith;
  progress = λ some_room. absurd (omega arith);
}
reads-Delivered rest (n ∷ ns) buf fs room enough v =
    let d = read-Delivered rest n buf fs v (omega (arith, room.0)) in
    let later =
      reads-Delivered rest ns d.kept d.left room.1
        (omega (
          arith,
          d.at_most,
          ap length d.in_order,
          length-append {0} d.given (d.kept ++ data_of d.left),
        ))
        d.quiet_left in
    record {
      given = d.given ++ later.given;
      kept = later.kept;
      left = later.left;
      result = rw (d.result, later.result);
      quiet_left = later.quiet_left;
      in_order =
          append_assoc d.given later.given (later.kept ++ data_of later.left)
          ∙ ap (λ (t : Bytes). d.given ++ t) later.in_order
          ∙ d.in_order;
      at_most = omega (arith, d.at_most, later.at_most, length-append {0} d.given later.given);
      progress =
          λ some_room. omega (arith, d.progress room.0, length-append {0} d.given later.given);
    }
