-- ===== src/Mux/Frame/Outcome.antt =====
-- How reading one frame ends.
use go_rsyncfs.Base.{ℕ, ◌<◌, ◌≡◌, ◌⊎◌, inl, inr, Bool-cases, ltb, Bytes, length, arith}
use go_rsyncfs.Io.{Error, Result, ok, err, bind, return, eof, unexpected_eof}
use go_rsyncfs.Io.Laws.{read_full_cases, short_read_cases, read_full_takes}
use go_rsyncfs.Wire.Le.{le_value}
use go_rsyncfs.Mux.Frame.{read_frame, read_payload, length_of_tag, code_of_tag}

-- A frame, which took bytes, or a stream that ended.
pub data FrameOutcome (s : Bytes) : Result (ℕ × Bytes) → Type 0 where
  got : {f : ℕ × Bytes} {t : Bytes} → length t < length s → FrameOutcome s (ok f t)
  failed : {e : Error} {t : Bytes} → (e ≡ eof) ⊎ (e ≡ unexpected_eof) → FrameOutcome s (err e t)

payload_outcome :
    (code len : ℕ) (s t : Bytes)
    → length t < length s
    → FrameOutcome s (bind (read_payload len t) (λ payload. return (code, payload)))
unfolding read_payload
payload_outcome code len s t h = elim (Bool-cases (ltb 0 len)) [
  | inl some_bytes ↦ rw some_bytes (elim (read_full_cases len t) [
    | inl (p, u, e) ↦ rw e (got (omega (arith, read_full_takes len t p u e)))
    | inr e ↦ rw e (failed (short_read_cases t))
  ])
  | inr none_at_all ↦ rw none_at_all (got h)
]

pub read_frame-FrameOutcome : (s : Bytes) → FrameOutcome s (read_frame s)
unfolding read_frame
read_frame-FrameOutcome s = elim (read_full_cases 4 s) [
  | inl (p, t, e) ↦ rw e (
      payload_outcome (code_of_tag (le_value p)) (length_of_tag (le_value p)) s t
        (omega (arith, read_full_takes 4 s p t e)))
  | inr e ↦ rw e (failed (short_read_cases s))
]
