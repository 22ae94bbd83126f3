-- ===== src/Client/Finish/Agrees.antt =====
-- The ends of a session fit: what the client writes in finishSession is what the sender reads, and
-- the other way round.
use go_rsyncfs.Base.{
  ℕ, zero, suc, ◌+◌, ◌≤◌, ◌<◌, ◌≡◌, refl, List, All, Bool-cases, inl, inr, ◌++◌, append_assoc,
  Bytes, length, length-append, leb, arith,
}
use go_rsyncfs.Io.{Reader, ok}
use go_rsyncfs.Wire.Le.{length-le_bytes}
use go_rsyncfs.Wire.Fixed.{write_int32}
use go_rsyncfs.Wire.Ndx.{NdxState, ndx_done, new_ndx_state}
use go_rsyncfs.Selector.{Selector}
use go_rsyncfs.Selector.Done.{done_bytes}
use go_rsyncfs.Sender.FileList.{FileEntry, TransferState, send_file_list}
use go_rsyncfs.Sender.Filters.{IsRule, rules_text}
use go_rsyncfs.Sender.Session.{do_server_sender, do_server_sender-list}
use go_rsyncfs.Sender.Finish.{max_phase, send_files, send_stats, serve_to_end}
use go_rsyncfs.Client.Finish.{EndState, finish_session}
use go_rsyncfs.Client.Finish.Parts.{
  markers, markers_served, markers_read, read_stats-send_stats, goodbye, goodbye_echo,
  read_final_goodbye-goodbye, final_goodbye-echo,
}

done_bytes-nonempty : (version : ℕ) → 1 ≤ length (done_bytes version)
unfolding write_int32
done_bytes-nonempty version = elim (Bool-cases (leb 30 version)) [
  | inl new ↦ rw new (omega arith)
  | inr old ↦ rw old (omega (arith, length-le_bytes 4 ndx_done))
]

length-markers : (version n : ℕ) → n ≤ length (markers version n)
unfolding markers
length-markers version zero = omega arith
length-markers version (suc n) = omega (
  arith,
  done_bytes-nonempty version,
  length-markers version n,
  length-append {0} (done_bytes version) (markers version n),
)

-- What either side writes from the first marker on.
abbrev pub client_end : ℕ → Bytes
client_end version = markers version (suc (max_phase version)) ++ goodbye version

abbrev pub sender_end : TransferState → Bytes
sender_end st = markers st.ver (suc (max_phase st.ver)) ++ (send_stats st ++ goodbye_echo st.ver)

module _ (st : TransferState)
    (send_file : FileEntry → Selector → NdxState → Reader (Bytes × NdxState))
    (ndx recv_ndx : NdxState) where
  -- The client at the end of a session of the same version.
  abbrev ending : EndState
  ending = record { version = st.ver; ndx = ndx; recv_ndx = recv_ndx }

  send_files-markers :
      (rest : Bytes)
      → send_files st send_file (markers st.ver (suc (max_phase st.ver)) ++ rest)
        ≡ ok (markers st.ver (suc (max_phase st.ver))) rest
  unfolding send_files
  send_files-markers rest =
      let n = max_phase st.ver in
      let s = markers st.ver (suc n) in
      markers_served st send_file n (suc (length (s ++ rest)))
        (record { phase = 0; in_ndx = new_ndx_state; out_ndx = new_ndx_state }) rest (omega arith)
        (omega (arith, length-markers st.ver (suc n), length-append {0} s rest))

  serve_to_end-client_end :
      (rest : Bytes)
      → serve_to_end st send_file (client_end st.ver ++ rest) ≡ ok (sender_end st) rest
  unfolding serve_to_end
  serve_to_end-client_end rest =
      simp append_assoc (rw (send_files-markers _, read_final_goodbye-goodbye st.ver rest) refl)

  finish_session-sender_end :
      (rest : Bytes) → finish_session ending (sender_end st ++ rest) ≡ ok (client_end st.ver) rest
  unfolding finish_session
  finish_session-sender_end rest =
      let n = max_phase st.ver in
      let one_more : n + 1 ≡ suc n = omega arith in
      let tail = goodbye_echo st.ver ++ rest in
      rw one_more (
        simp append_assoc (
          rw
            (
              markers_read (suc n) ending (send_stats st ++ tail),
              read_stats-send_stats st tail,
              final_goodbye-echo ending rest,
            )
            refl))

-- In a session that transfers nothing, with a walk that found an entry, doServerSender takes the
-- filter rules of a client, sends its list, and then each side, when it reads what the other one
-- writes, writes what the other one reads, and leaves what follows: the sender its phases, the
-- statistics and the goodbye, the client those of finishSession. This is so in every version, for
-- rules of 1 to 2^31-1 bytes, and whatever transfers would do.
pub finish_session-do_server_sender :
    (st : TransferState) (send_file : FileEntry → Selector → NdxState → Reader (Bytes × NdxState))
    → (ndx recv_ndx : NdxState) (rules : List Bytes) (rest rest' : Bytes) → 0 < length st.entries
    → All IsRule rules
    → (do_server_sender st send_file (rules_text rules ++ (client_end st.ver ++ rest))
        ≡ ok (send_file_list st ++ sender_end st) rest)
      × (finish_session
            (record { version = st.ver; ndx = ndx; recv_ndx = recv_ndx })
            (sender_end st ++ rest')
          ≡ ok (client_end st.ver) rest')
finish_session-do_server_sender st send_file ndx recv_ndx rules rest rest' some_entries fine = (
  do_server_sender-list st send_file some_entries rules (client_end st.ver ++ rest) rest
      (sender_end st) fine (serve_to_end-client_end st send_file ndx recv_ndx rest),
  finish_session-sender_end st send_file ndx recv_ndx rest',
)
