-- ===== src/Sender/Finish.antt =====
-- The sender behind its file list: the selector loop, the statistics and the goodbye of
-- server-send.go. Each part reads the client's bytes and returns what it wrote. The transfer of a
-- file (sendFile) is a parameter of the loop.
use go_rsyncfs.Base.{
  ℕ, zero, suc, ◌+◌, ◌-◌, ◌%◌, ◌^◌, bit_and, not, ◌&&◌, ◌||◌, List, [], ◌∷◌, ◌++◌, Option, none,
  some, Bytes, length, ltb, leb, ◌==◌, if◌then◌else◌,
}
use go_rsyncfs.Io.{
  Result, ok, err, Reader, bind, ◌>>=◌, return, fail, eof, out_of_fuel, invalid_index,
  unexpected_flist_eof, transfer_refused, invalid_packet, Output,
}
use go_rsyncfs.Wire.Fixed.{is_neg32, write_int32, read_int32, write_longint}
use go_rsyncfs.Wire.Var.{write_varint, read_varint, write_varlong}
use go_rsyncfs.Wire.Ndx.{NdxState, ndx_done, new_ndx_state, write_ndx}
use go_rsyncfs.Selector.{Selector, read_selector, write_selector}
use go_rsyncfs.Sender.FileList.{FileEntry, TransferState, mode_type}

-- NDXFlistEOF, -2, and ndxDelStats, -3.
abbrev pub ndx_flist_eof : ℕ
ndx_flist_eof = 2 ^ 32 - 2

abbrev pub ndx_del_stats : ℕ
ndx_del_stats = 2 ^ 32 - 3

abbrev pub item_is_new : ℕ
item_is_new = 2 ^ 13

unfoldable pub echo_ndx : ℕ → NdxState → ℕ → Bytes × NdxState
echo_ndx version s ndx = if leb 30 version then write_ndx s ndx else (write_int32 ndx, s)

-- The five counters of the client, which are dropped.
unfoldable pub read_counters : ℕ → Reader (Unit {0})
read_counters zero = return tt
read_counters (suc n) = do v ← read_varint; read_counters n

abbrev pub zero_counters : Bytes
zero_counters =
    write_varint 0 ++ (write_varint 0 ++ (write_varint 0 ++ (write_varint 0 ++ write_varint 0)))

unfoldable pub echo_del_stats : ℕ → NdxState → Reader (Bytes × NdxState)
unfolding read_counters
echo_del_stats version out_ndx = do
  counters ← read_counters 5
  return (
    (echo_ndx version out_ndx ndx_del_stats).0 ++ zero_counters,
    (echo_ndx version out_ndx ndx_del_stats).1,
  )

-- What a writer that may fail wrote.
abbrev pub sent_or_failed : Output × NdxState → Reader (Bytes × NdxState)
sent_or_failed ((s, none), st) = return (s, st)
sent_or_failed ((s, some e), st) = fail e

-- The loop's variables: the phase and the index states.
pub record LoopState : Type 0 where
  pub phase : ℕ
  pub in_ndx : NdxState
  pub out_ndx : NdxState

-- A round of the loop goes on or leaves it.
pub data Round : Type 0 where
  next : Bytes → LoopState → Round
  leave : NdxState → Round

abbrev pub next_round : ℕ → NdxState → Bytes × NdxState → Round
next_round phase in_ndx (s, out_ndx) =
    next s (record { phase = phase; in_ndx = in_ndx; out_ndx = out_ndx })

abbrev pub entry_at : List FileEntry → ℕ → Option FileEntry
entry_at [] i = none
entry_at (e ∷ es) zero = some e
entry_at (e ∷ es) (suc i) = entry_at es i

abbrev pub max_phase : ℕ → ℕ
max_phase version = if leb 29 version then 2 else 1

module _ (st : TransferState)
    (send_file : FileEntry → Selector → NdxState → Reader (Bytes × NdxState)) where
  -- A selector for an entry of the list.
  unfoldable pub serve_entry : LoopState → FileEntry → Selector → Reader (Bytes × NdxState)
  serve_entry l e sel =
      if bit_and sel.iflags (2 ^ 15) == 0
      then sent_or_failed (write_selector l.out_ndx st.ver sel)
      else if l.phase == 2
      then fail transfer_refused
      else send_file e sel l.out_ndx

  unfoldable pub serve_index : LoopState → NdxState → Selector → Reader Round
  unfolding serve_entry
  serve_index l in_ndx sel =
      if is_neg32 sel.ndx
      then fail invalid_index
      else if ltb st.ver 30 && sel.ndx == length st.entries % 2 ^ 32 && sel.iflags == item_is_new
      then return (next [] (record l { in_ndx = in_ndx }))
      else elim (entry_at st.entries sel.ndx) [
        | none ↦ fail invalid_index
        | some e ↦ serve_entry l e sel >>= (λ out. return (next_round l.phase in_ndx out))
      ]

  unfoldable pub serve_selector : LoopState → NdxState → Selector → Reader Round
  unfolding serve_index
  serve_selector l in_ndx sel =
      if sel.ndx == ndx_done
      then (if ltb (max_phase st.ver) (l.phase + 1)
          then return (leave l.out_ndx)
          else return (next_round (l.phase + 1) in_ndx (echo_ndx st.ver l.out_ndx sel.ndx)))
      else if sel.ndx == ndx_flist_eof
      then fail unexpected_flist_eof
      else if sel.ndx == ndx_del_stats
      then (echo_del_stats st.ver l.out_ndx >>= (λ out. return (next_round l.phase in_ndx out)))
      else serve_index l in_ndx sel

  -- The loop, and the marker behind it.
  unfoldable pub serve_rounds : ℕ → LoopState → Reader Bytes
  unfolding serve_selector
  serve_rounds zero l = fail out_of_fuel
  serve_rounds (suc fuel) l = do
    (sel, in_ndx) ← read_selector l.in_ndx st.ver
    round ← serve_selector l in_ndx sel
    elim round [
      | leave out_ndx ↦ return (echo_ndx st.ver out_ndx ndx_done).0
      | next s l' ↦ serve_rounds fuel l' >>= (λ later. return (s ++ later))
    ]

  -- Each selector takes a byte at least.
  unfoldable pub send_files : Reader Bytes
  send_files s =
      serve_rounds (suc (length s))
        (record { phase = 0; in_ndx = new_ndx_state; out_ndx = new_ndx_state }) s

-- The sizes of the regular files and the links, as an int64.
unfoldable pub total_size : List FileEntry → ℕ
total_size [] = 0
total_size (e ∷ es) =
    let others = total_size es in
    if bit_and e.mode mode_type == 0 || bit_and e.mode mode_type == 2 ^ 27
    then (e.size + others) % 2 ^ 64
    else others

unfoldable pub write_stats : ℕ → List ℕ → Bytes
write_stats version [] = []
write_stats version (v ∷ vals) =
    (if leb 30 version then write_varlong v 3 else write_longint v) ++ write_stats version vals

unfoldable pub send_stats : TransferState → Bytes
unfolding write_stats
send_stats st =
    write_stats st.ver (0 ∷ 0 ∷ total_size st.entries ∷ (if leb 29 st.ver then 0 ∷ 0 ∷ [] else []))

-- The first index of the goodbye. Below version 29 an error of the read is dropped, and leaves 0.
unfoldable pub read_goodbye_ndx : ℕ → NdxState → Reader (ℕ × NdxState)
read_goodbye_ndx version in_ndx s =
    if ltb version 29
    then elim (read_int32 s) [ ok v t ↦ ok (v, in_ndx) t | err e t ↦ ok (0, in_ndx) t ]
    else bind (read_selector in_ndx version s) (λ p. return (p.0.ndx, p.1))

-- The second NDX_DONE, in whose place the stream may end.
unfoldable pub second_goodbye : Result (Selector × NdxState) → Result (Unit {0})
second_goodbye (ok p t) = if p.0.ndx == ndx_done then ok tt t else err invalid_packet t
second_goodbye (err eof t) = ok tt t
second_goodbye (err e t) = err e t

unfoldable pub read_final_goodbye : ℕ → Reader Bytes
unfolding read_goodbye_ndx second_goodbye
read_final_goodbye version = do
  (first, in_ndx) ← read_goodbye_ndx version new_ndx_state
  if not (first == ndx_done)
      then fail invalid_packet
      else if leb 31 version
      then (λ s.
          bind (second_goodbye (read_selector in_ndx version s))
            (λ end. return (echo_ndx version new_ndx_state ndx_done).0))
      else return []

-- doServerSender behind the file list.
unfoldable pub serve_to_end :
    TransferState → (FileEntry → Selector → NdxState → Reader (Bytes × NdxState)) → Reader Bytes
serve_to_end st send_file = do
  transfers ← send_files st send_file
  goodbye ← read_final_goodbye st.ver
  return (transfers ++ (send_stats st ++ goodbye))
