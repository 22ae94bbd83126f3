-- ===== src/Mux/Reader/Total.antt =====
-- The loops of the Reader end on every input.
use go_rsyncfs.Base.{
  ℕ, zero, suc, ◌<◌, ◌≡◌, ◌≢◌, ◌⊎◌, inl, inr, false, Bool-cases, [], ◌∷◌, Bytes, length,
  length-take, take, drop, ◌==◌, arith,
}
use go_rsyncfs.Io.{
  Error, Result, ok, err, Reader, bind, return, eof, unexpected_eof, unexpected_msg,
}
use go_rsyncfs.Mux.Frame.{read_frame, is_info_message, msg_data}
use go_rsyncfs.Mux.Frame.Outcome.{FrameOutcome, got, failed, read_frame-FrameOutcome}
use go_rsyncfs.Mux.Reader.{taken, on_frame, fetch, read}

-- How a call ends: with a value that `P` allows, at the end of the stream, or at a message that
-- the caller has to take. It has no case for a loop that does not end.
pub data Ends {A : Type 0} (P : A → Type 0) : Result A → Type 0 where
  value : {a : A} {t : Bytes} → P a → Ends P (ok a t)
  cut_off : {e : Error} {t : Bytes} → (e ≡ eof) ⊎ (e ≡ unexpected_eof) → Ends P (err e t)
  interrupted :
      {code : ℕ} {t : Bytes}
      → code ≢ msg_data
      → is_info_message code ≡ false
      → Ends P (err (unexpected_msg code) t)

-- A loop that reads a frame and either ends or goes on ends, if its fuel exceeds the bytes.
module _ {A : Type 0} (P : A → Type 0) where
  after_frame :
      (step : ℕ × Bytes → Reader A) (s : Bytes) (o : Result (ℕ × Bytes))
      → ((f : ℕ × Bytes) (t : Bytes) → length t < length s → Ends P (step f t))
      → FrameOutcome s o
      → Ends P (bind o step)
  after_frame step s _ next (got {f} {t} l) = next f t l
  after_frame step s _ next (failed e) = cut_off e

abbrev pub NonEmpty : Bytes → Type 0
NonEmpty p = 0 < length p

on_frame-Ends :
    (more : Reader Bytes) (f : ℕ × Bytes) (t : Bytes)
    → Ends NonEmpty (more t)
    → Ends NonEmpty (on_frame more f t)
unfolding on_frame
on_frame-Ends more (code, payload) t h = elim (Bool-cases (code == msg_data)) [
  | inl is_data ↦ rw is_data (data_frame payload)
  | inr other ↦ rw other (elim (Bool-cases (is_info_message code)) [
    | inl info ↦ rw info h
    | inr not_info ↦ rw not_info (interrupted (ground arith) not_info)
  ])
]
  where
    data_frame : (payload : Bytes) → Ends NonEmpty (taken more payload t)
    data_frame [] = h
    data_frame (b ∷ p) = value (omega arith)

fetch-Ends : (fuel : ℕ) (s : Bytes) → length s < fuel → Ends NonEmpty (fetch fuel s)
unfolding fetch
fetch-Ends zero s h = absurd (omega arith)
fetch-Ends (suc fuel) s h =
    after_frame NonEmpty (on_frame (fetch fuel)) s (read_frame s)
      (λ f t l. on_frame-Ends (fetch fuel) f t (fetch-Ends fuel t (omega arith)))
      (read_frame-FrameOutcome s)

-- On every input and with every buffer, a Read of at least one byte returns at least one byte,
-- io.EOF, io.ErrUnexpectedEOF, or the code of a message that is neither data nor for the log: its
-- loop ends, also on empty data frames.
pub read-Ends :
    (n : ℕ) (buf s : Bytes) → 0 < n → Ends (λ (r : Bytes × Bytes). NonEmpty r.0) (read n buf s)
unfolding read
read-Ends n (b ∷ buf) s pos = value (omega (arith, length-take n (b ∷ buf)))
read-Ends n [] s pos =
    given (fetch (suc (length s)) s) (fetch-Ends (suc (length s)) s (omega arith))
  where
    given :
        (o : Result Bytes)
        → Ends NonEmpty o
        → Ends
            (λ (r : Bytes × Bytes). NonEmpty r.0)
            (bind o (λ payload. return (take n payload, drop n payload)))
    given _ (value {a} h) = value (omega (arith, length-take n a))
    given _ (cut_off e) = cut_off e
    given _ (interrupted a b) = interrupted a b
