-- ===== src/Client/Open/Delivers.antt =====
-- The transfer of a whole file: what openFile asks for, a round of the sender's loop, and what
-- openFile makes of the answer.
use go_rsyncfs.Base.{
  ℕ, ◌%◌, ◌^◌, ◌<◌, ◌≡◌, ◌≢◌, refl, ◌∙◌, List, [], ◌++◌, append_assoc, Option, some, Bytes, length,
  arith, inl, inr, Bool, Bool-cases, false, leb, ltb, ◌==◌, ◌&&◌, bit_and,
}
use go_rsyncfs.Io.{ok, Reader, bind, wrote}
use go_rsyncfs.Io.Laws.{read_full-append}
use go_rsyncfs.Wire.Fixed.{is_neg32}
use go_rsyncfs.Wire.Ndx.{NdxState, ndx_done}
use go_rsyncfs.Wire.Ndx.RoundTrip.{InRange}
use go_rsyncfs.Checksum.{Digest, md4, md5, other, file_checksum, write_sum_head}
use go_rsyncfs.Checksum.Heads.{read_sum_head-write_sum_head}
use go_rsyncfs.Checksum.Settings.{ChecksumSettings, whole_sum, or_nil}
use go_rsyncfs.Selector.{Selector, read_selector, write_selector}
use go_rsyncfs.Selector.RoundTrip.{read_selector-write_selector, write_selector-succeeds}
use go_rsyncfs.Flist.Entry.{Entry}
use go_rsyncfs.Sender.FileList.{FileEntry, TransferState, mode_type}
use go_rsyncfs.Sender.Finish.{
  LoopState, Round, next, next_round, ndx_flist_eof, ndx_del_stats, item_is_new, entry_at,
  serve_entry, serve_index, serve_selector,
}
use go_rsyncfs.Sender.Transfer.{entry_data, match_sums, send_file}
use go_rsyncfs.Sender.Transfer.Stream.{match_sums-rebuild}
use go_rsyncfs.Delta.{Token, parse_delta_stream}
use go_rsyncfs.Equal.{bytes_equal_same}
use go_rsyncfs.Client.Info.{flist_info}
use go_rsyncfs.Client.Open.{null_head, open_request, open_reply, base_name}
use go_rsyncfs.Client.Open.Request.{
  received_selector, received-IsSelector, same_request, null-IsSafe, null-IsWire, receive_no_sums,
}
use go_rsyncfs.Client.Open.Delta.{literals, read_file-parse_delta_stream}

-- A round of the sender's loop that reads a selector and answers it.
abbrev pub serve_round :
    TransferState
    → (FileEntry → Selector → NdxState → Reader (Bytes × NdxState))
    → LoopState
    → Reader Round
serve_round st send l s =
    bind (read_selector l.in_ndx st.ver s) (λ p. serve_selector st send l p.1 p.0)

-- The settings that a session agreed on, in the version of the sender.
abbrev pub settings : TransferState → Digest → ℕ → Bool → ChecksumSettings
settings st digest seed fix = record { ver = st.ver; digest = digest; seed = seed; seed_fix = fix }

-- What a transfer of `s` needs: the index is that of a regular file of the list, whose data the file
-- system has, the transfers are not over, and the index states are in range.
pub record CanOpen (st : TransferState) (files : Bytes → Option Bytes) (e : FileEntry) (s : Bytes)
    (i : ℕ) (l : LoopState) : Type 0 where
  pub small : i < 2 ^ 31
  pub named : entry_at st.entries i ≡ some e
  pub regular : bit_and e.mode mode_type ≡ 0
  pub file : files e.name ≡ some s
  pub asks : l.phase ≢ 2
  pub in_range : InRange l.in_ndx
  pub out_range : InRange l.out_ndx

module _ (md4_sum md5_sum : Bytes → Bytes) (st : TransferState) (digest : Digest) (seed : ℕ)
    (fix : Bool) (files : Bytes → Option Bytes) (e : FileEntry) (s : Bytes) (i : ℕ) (l : LoopState)
    (can : CanOpen st files e s i l) where
  abbrev c : ChecksumSettings
  c = settings st digest seed fix

  abbrev sel : Selector
  sel = received_selector st.ver i

  abbrev send : FileEntry → Selector → NdxState → Reader (Bytes × NdxState)
  send = send_file md4_sum md5_sum c files

  request-bytes :
      (open_request l.in_ndx st.ver i).0.0
      ≡ (write_selector l.in_ndx st.ver sel).0.0 ++ write_sum_head null_head st.ver
  unfolding open_request
  request-bytes =
      rw (same_request l.in_ndx st.ver i, write_selector-succeeds l.in_ndx st.ver sel (omega arith))
        refl

  entry_data-file : (tail : Bytes) → entry_data md4_sum md5_sum c files e tail ≡ ok s tail
  unfolding entry_data
  entry_data-file tail = rw (can.regular, can.file) refl

  send_file-sent :
      (out tail : Bytes)
      → match_sums md4_sum md5_sum c s null_head [] tail ≡ ok out tail
      → send e sel l.out_ndx (write_sum_head null_head st.ver ++ tail)
        ≡ ok
            (
              (write_selector l.out_ndx st.ver sel).0.0 ++ (write_sum_head null_head st.ver ++ out),
              (write_selector l.out_ndx st.ver sel).1,
            )
            tail
  unfolding send_file
  send_file-sent out tail m =
      rw
        (
          receive_no_sums st.ver tail,
          entry_data-file tail,
          write_selector-succeeds l.out_ndx st.ver sel (omega arith),
          m,
        )
        refl

  not_done : (sel.ndx == ndx_done) ≡ false
  not_done = ground (arith, can.small)

  not_eof : (sel.ndx == ndx_flist_eof) ≡ false
  not_eof = ground (arith, can.small)

  not_stats : (sel.ndx == ndx_del_stats) ≡ false
  not_stats = ground (arith, can.small)

  asks_data : (bit_and sel.iflags (2 ^ 15) == 0) ≡ false
  asks_data = elim (Bool-cases (leb 29 st.ver)) [ inl new ↦ rw new refl | inr old ↦ rw old refl ]

  not_new :
      (ltb st.ver 30 && sel.ndx == length st.entries % 2 ^ 32 && sel.iflags == item_is_new) ≡ false
  not_new = ground arith

  serve_entry-sends : (tail : Bytes) → serve_entry st send l e sel tail ≡ send e sel l.out_ndx tail
  unfolding serve_entry
  serve_entry-sends tail =
      let no_redo : (l.phase == 2) ≡ false = ground (arith, can.asks) in
      rw (asks_data, no_redo) refl

  serve_selector-sends :
      (in_ndx : NdxState) (out : Bytes × NdxState) (s tail : Bytes)
      → send e sel l.out_ndx s ≡ ok out tail
      → serve_selector st send l in_ndx sel s ≡ ok (next_round l.phase in_ndx out) tail
  unfolding serve_selector serve_index
  serve_selector-sends in_ndx out s tail sent =
      let positive : is_neg32 i ≡ false = ground (arith, can.small) in
      rw (not_done, not_eof, not_stats, positive, not_new, can.named, serve_entry-sends s, sent)
        refl

  -- What openFile makes of the answer.
  open_reply-reads :
      (f : Entry) (out more : Bytes) (ts : List Token)
      → parse_delta_stream (out ++ more) ≡ ok ts (whole_sum md4_sum md5_sum c s ++ more)
      → literals ts ≡ s
      → length (whole_sum md4_sum md5_sum c s) ≡ 16
      → open_reply md4_sum md5_sum c f l.out_ndx (
          (write_selector l.out_ndx st.ver sel).0.0
          ++ (write_sum_head null_head st.ver ++ out)
          ++ more)
        ≡ ok
            (
              record { info = flist_info (base_name f.name) f; content = s },
              (write_selector l.out_ndx st.ver sel).1,
            )
            more
  unfolding open_reply
  open_reply-reads f out more ts parsed same len = simp append_assoc (
      rw
        (
          read_selector-write_selector l.out_ndx st.ver sel
              (write_sum_head null_head st.ver ++ (out ++ more)) can.out_range
              (received-IsSelector st.ver i can.small),
          read_sum_head-write_sum_head st.ver null_head (out ++ more) (null-IsSafe st.ver)
              (null-IsWire st.ver),
          read_file-parse_delta_stream ts (out ++ more) _ parsed,
          same,
          read_full-append 16 (whole_sum md4_sum md5_sum c s) more len,
          bytes_equal_same (whole_sum md4_sum md5_sum c s),
        )
        refl)

  -- The request as the sender reads it.
  request-read :
      (rest : Bytes)
      → serve_round st send l ((open_request l.in_ndx st.ver i).0.0 ++ rest)
        ≡ serve_selector st send l
            (write_selector l.in_ndx st.ver sel).1
            sel
            (write_sum_head null_head st.ver ++ rest)
  request-read rest =
      rw
        (
          request-bytes,
          append_assoc (write_selector l.in_ndx st.ver sel).0.0 (write_sum_head null_head st.ver)
              rest,
          read_selector-write_selector l.in_ndx st.ver sel (write_sum_head null_head st.ver ++ rest)
              can.in_range (received-IsSelector st.ver i can.small),
        )
        refl

  request-ndx :
      open_request l.in_ndx st.ver i
      ≡ (wrote (open_request l.in_ndx st.ver i).0.0, (write_selector l.in_ndx st.ver sel).1)
  unfolding open_request
  request-ndx =
      rw (same_request l.in_ndx st.ver i, write_selector-succeeds l.in_ndx st.ver sel (omega arith))
        refl

-- A digest that is known has 16 bytes if MD4 and MD5 have.
length-whole_sum :
    (md4_sum md5_sum : Bytes → Bytes) (c : ChecksumSettings) (s : Bytes)
    → ((v : Bytes) → length (md4_sum v) ≡ 16)
    → ((v : Bytes) → length (md5_sum v) ≡ 16)
    → c.digest ≢ other
    → length (whole_sum md4_sum md5_sum c s) ≡ 16
unfolding whole_sum file_checksum
length-whole_sum md4_sum md5_sum c s h4 h5 known = by_digest c.digest refl
  where
    by_digest :
        (d : Digest)
        → c.digest ≡ d
        → length (or_nil (file_checksum md4_sum md5_sum s c.digest c.ver c.seed)) ≡ 16
    by_digest md4 e = rw (e, file_checksum) (h4 _)
    by_digest md5 e = rw (e, file_checksum) (h5 _)
    by_digest other e = absurd (known e)

-- A client without the file that asks for a regular file of the list gets its data, all of it: the
-- sender reads the request and no more, answers, and openFile accepts the answer and reads no more.
-- The index states of both directions stay in step, so the next transfer starts where this
-- one did. MD4 and MD5 have 16 bytes, and the session's digest is one of them.
pub open_file-serve_round :
    (md4_sum md5_sum : Bytes → Bytes) (st : TransferState) (digest : Digest) (seed : ℕ) (fix : Bool)
    (files : Bytes → Option Bytes) (e : FileEntry) (s : Bytes) (i : ℕ) (l : LoopState) (f : Entry)
    (rest more : Bytes)
    → ((v : Bytes) → length (md4_sum v) ≡ 16)
    → ((v : Bytes) → length (md5_sum v) ≡ 16)
    → digest ≢ other
    → CanOpen st files e s i l
    → (reply : Bytes) × (in_ndx : NdxState) × (out_ndx : NdxState) × (open_request l.in_ndx st.ver i
        ≡ (wrote (open_request l.in_ndx st.ver i).0.0, in_ndx))
      × (serve_round st
            (send_file md4_sum md5_sum (settings st digest seed fix) files)
            l
            ((open_request l.in_ndx st.ver i).0.0 ++ rest)
          ≡ ok (next reply (record { phase = l.phase; in_ndx = in_ndx; out_ndx = out_ndx })) rest)
      × (open_reply md4_sum md5_sum (settings st digest seed fix) f l.out_ndx (reply ++ more)
          ≡ ok (record { info = flist_info (base_name f.name) f; content = s }, out_ndx) more)
open_file-serve_round md4_sum md5_sum st digest seed fix files e s i l f rest more h4 h5 known can =
    let c = settings st digest seed fix in
    let sel = received_selector st.ver i in
    let len = length-whole_sum md4_sum md5_sum c s h4 h5 known in
    let (out, ts, sent, parsed, same) =
      match_sums-rebuild md4_sum md5_sum c s null_head [] (λ (j : ℕ). [])
        (write_sum_head null_head st.ver ++ []) [] rest more (receive_no_sums st.ver [])
        (omega arith) (λ j b g. cc) (λ j b o g. cc) in
    (
      (write_selector l.out_ndx st.ver sel).0.0 ++ (write_sum_head null_head st.ver ++ out),
      (write_selector l.in_ndx st.ver sel).1,
      (write_selector l.out_ndx st.ver sel).1,
      request-ndx md4_sum md5_sum st digest seed fix files e s i l can,
      request-read md4_sum md5_sum st digest seed fix files e s i l can rest
          ∙ serve_selector-sends md4_sum md5_sum st digest seed fix files e s i l can _ _ _ rest
              (send_file-sent md4_sum md5_sum st digest seed fix files e s i l can out rest sent),
      open_reply-reads md4_sum md5_sum st digest seed fix files e s i l can f out more ts parsed
          same len,
    )
