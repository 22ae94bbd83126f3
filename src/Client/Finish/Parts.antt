-- ===== src/Client/Finish/Parts.antt =====
-- The parts of the end of a session: the markers of the phases, the statistics and the goodbye.
use go_rsyncfs.Base.{
  ℕ, zero, suc, ◌+◌, ◌^◌, ◌<◌, ◌≡◌, refl, sym, ap, true, false, Bool-cases, inl, inr, ◌||◌, bit_and,
  List, [], ◌∷◌, ◌++◌, append_assoc, append-nil, Bytes, length, All, ltb, leb, ◌==◌, if◌then◌else◌,
  arith,
}
use go_rsyncfs.Io.{Reader, ok}
use go_rsyncfs.Wire.Fixed.{IsU64, write_longint}
use go_rsyncfs.Wire.Fixed.RoundTrip.{read_int32-write_int32, read_longint-write_longint}
use go_rsyncfs.Wire.Var.{write_varlong}
use go_rsyncfs.Wire.Var.RoundTrip.{read_varlong-write_varlong}
use go_rsyncfs.Wire.Ndx.{NdxState, ndx_done, new_ndx_state}
use go_rsyncfs.Wire.Ndx.Done.{write_ndx_done}
use go_rsyncfs.Selector.{Selector}
use go_rsyncfs.Selector.Done.{done_bytes, write_ndx_version, read_selector_done}
use go_rsyncfs.Sender.FileList.{FileEntry, TransferState, mode_type}
use go_rsyncfs.Sender.Finish.{
  LoopState, max_phase, echo_ndx, serve_selector, serve_rounds, total_size, write_stats, send_stats,
  read_goodbye_ndx, second_goodbye, read_final_goodbye,
}
use go_rsyncfs.Client.Finish.{
  EndState, write_phase_ndx, read_phase_ndx, finish_phases, read_stat, read_stats_from, read_stats,
  final_goodbye,
}

-- The bytes of `n` markers.
unfoldable pub markers : ℕ → ℕ → Bytes
markers version zero = []
markers version (suc n) = done_bytes version ++ markers version n

echo_ndx_done : (version : ℕ) (s : NdxState) → echo_ndx version s ndx_done ≡ (done_bytes version, s)
unfolding echo_ndx
echo_ndx_done version s = write_ndx_version version s

write_phase_ndx_done : (c : EndState) → write_phase_ndx c ≡ (done_bytes c.version, c)
unfolding write_phase_ndx
write_phase_ndx_done c = elim (Bool-cases (leb 30 c.version)) [
  | inl new ↦ rw (new, write_ndx_done c.ndx) refl
  | inr old ↦ rw old refl
]

read_phase_ndx_done :
    (c : EndState) (rest : Bytes) → read_phase_ndx c (done_bytes c.version ++ rest) ≡ ok c rest
unfolding read_phase_ndx
read_phase_ndx_done c rest = elim (Bool-cases (leb 29 c.version)) [
  | inl new ↦ rw (new, read_selector_done c.version c.recv_ndx rest)
  | inr old ↦
      let bytes : leb 30 c.version ≡ false = ground arith in
      rw (old, bytes, read_int32-write_int32 ndx_done rest (omega arith))
]

module _ (st : TransferState)
    (send_file : FileEntry → Selector → NdxState → Reader (Bytes × NdxState)) where
  -- The sender echoes all markers but the last, and writes one behind the loop.
  pub markers_served :
      (n fuel : ℕ) (l : LoopState) (rest : Bytes)
      → l.phase + n ≡ max_phase st.ver
      → n < fuel
      → serve_rounds st send_file fuel l (markers st.ver (suc n) ++ rest)
        ≡ ok (markers st.ver (suc n)) rest
  unfolding serve_rounds serve_selector markers
  markers_served n zero l rest p h = absurd (omega arith)
  markers_served zero (suc fuel) l rest p h =
      let last : ltb (max_phase st.ver) (l.phase + 1) ≡ true = ground arith in
      simp append_assoc (
        rw
          (
            serve_rounds,
            read_selector_done st.ver l.in_ndx rest,
            last,
            echo_ndx_done st.ver l.out_ndx,
          )
          (ap (λ s. ok s rest) (sym (append-nil (done_bytes st.ver)))))
  markers_served (suc n) (suc fuel) l rest p h =
      let more : ltb (max_phase st.ver) (l.phase + 1) ≡ false = ground arith in
      simp append_assoc (
        rw
          (serve_rounds, read_selector_done st.ver l.in_ndx _, more, echo_ndx_done st.ver l.out_ndx)
          (rw
            (
              ← append_assoc (done_bytes st.ver) (markers st.ver n) rest,
              markers_served n fuel (record l { phase = l.phase + 1 }) rest (omega arith)
                  (omega arith),
            )
            refl))

-- The client writes a marker and reads the one that comes back.
pub markers_read :
    (n : ℕ) (c : EndState) (rest : Bytes)
    → finish_phases n c (markers c.version n ++ rest) ≡ ok (markers c.version n, c) rest
unfolding finish_phases markers
markers_read zero c rest = refl
markers_read (suc n) c rest = simp append_assoc (
    rw (finish_phases, write_phase_ndx_done c, read_phase_ndx_done c _, markers_read n c rest) refl)

stat_read :
    (version v : ℕ) (rest : Bytes)
    → IsU64 v
    → read_stat version ((if leb 30 version then write_varlong v 3 else write_longint v) ++ rest)
      ≡ ok v rest
unfolding read_stat
stat_read version v rest h = elim (Bool-cases (leb 30 version)) [
  | inl new ↦ rw new (read_varlong-write_varlong 3 v rest (omega arith) (omega arith) h)
  | inr old ↦ rw old (read_longint-write_longint v rest h)
]

stats_read :
    (version : ℕ) (vals : List ℕ) (rest : Bytes)
    → All IsU64 vals
    → read_stats_from version (length vals) (write_stats version vals ++ rest) ≡ ok tt rest
unfolding read_stats_from write_stats
stats_read version [] rest h = refl
stats_read version (v ∷ vals) rest (h, hs) =
    simp append_assoc (rw (stat_read version v _ h, stats_read version vals rest hs) refl)

total_size-IsU64 : (files : List FileEntry) → IsU64 (total_size files)
unfolding total_size
total_size-IsU64 [] = omega arith
total_size-IsU64 (e ∷ files) =
    elim (Bool-cases (bit_and e.mode mode_type == 0 || bit_and e.mode mode_type == 2 ^ 27)) [
      | inl counted ↦ rw counted (omega arith)
      | inr other ↦ rw other (total_size-IsU64 files)
    ]

pub read_stats-send_stats :
    (st : TransferState) (rest : Bytes) → read_stats st.ver (send_stats st ++ rest) ≡ ok tt rest
unfolding read_stats send_stats
read_stats-send_stats st rest =
    let small : IsU64 0 = omega arith in
    let total = total_size-IsU64 st.entries in
    elim (Bool-cases (leb 29 st.ver)) [
      | inl new ↦ rw new (
          stats_read st.ver (0 ∷ 0 ∷ total_size st.entries ∷ 0 ∷ 0 ∷ []) rest
            (small, (small, (total, (small, (small, tt))))))
      | inr old ↦ rw old (
          stats_read st.ver (0 ∷ 0 ∷ total_size st.entries ∷ []) rest (small, (small, (total, tt))))
    ]

-- The goodbye of the client, and the echo of the sender in between.
unfoldable pub goodbye : ℕ → Bytes
goodbye version =
    if leb 31 version then done_bytes version ++ done_bytes version else done_bytes version

unfoldable pub goodbye_echo : ℕ → Bytes
goodbye_echo version = if leb 31 version then done_bytes version else []

goodbye_ndx_read :
    (version : ℕ) (s : NdxState) (rest : Bytes)
    → read_goodbye_ndx version s (done_bytes version ++ rest) ≡ ok (ndx_done, s) rest
unfolding read_goodbye_ndx
goodbye_ndx_read version s rest = elim (Bool-cases (ltb version 29)) [
  | inl old ↦
      let bytes : leb 30 version ≡ false = ground arith in
      rw (old, bytes, read_int32-write_int32 ndx_done rest (omega arith)) refl
  | inr new ↦ rw (new, read_selector_done version s rest) refl
]

pub read_final_goodbye-goodbye :
    (version : ℕ) (rest : Bytes)
    → read_final_goodbye version (goodbye version ++ rest) ≡ ok (goodbye_echo version) rest
unfolding read_final_goodbye goodbye goodbye_echo second_goodbye
read_final_goodbye-goodbye version rest = elim (Bool-cases (leb 31 version)) [
  | inl twice ↦ rw twice (
      simp append_assoc (
        rw
          (
            goodbye_ndx_read version new_ndx_state _,
            read_selector_done version new_ndx_state rest,
            echo_ndx_done version new_ndx_state,
          )
          refl))
  | inr once ↦ rw once (rw (goodbye_ndx_read version new_ndx_state rest) refl)
]

pub final_goodbye-echo :
    (c : EndState) (rest : Bytes)
    → final_goodbye c (goodbye_echo c.version ++ rest) ≡ ok (goodbye c.version) rest
unfolding final_goodbye goodbye goodbye_echo
final_goodbye-echo c rest = elim (Bool-cases (leb 31 c.version)) [
  | inl twice ↦
      let new : ltb c.version 29 ≡ false = ground arith in
      rw (twice, new, write_phase_ndx_done c, read_phase_ndx_done c rest, write_phase_ndx_done c)
        refl
  | inr once ↦ elim (Bool-cases (ltb c.version 29)) [
    | inl old ↦ let bytes : leb 30 c.version ≡ false = ground arith in rw (once, old, bytes) refl
    | inr new ↦ rw (once, new, write_phase_ndx_done c) refl
  ]
]
