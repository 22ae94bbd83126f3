-- ===== src/Mux/Frame.antt =====
-- writeFrame and readFrame of protocol/mux/mux.go: a little-endian header with the code in its top
-- byte and the length in the other three, and the payload.
pub mod Outcome
mod Examples
use go_rsyncfs.Base.{
  ℕ, zero, suc, ◌+◌, ◌-◌, ◌*◌, ◌/◌, ◌%◌, ◌^◌, ◌≤◌, ◌<◌, ◌≡◌, refl, ap, ◌∙◌, bit_and, bit_or, Bool,
  true, false, ◌||◌, List, [], ◌∷◌, ◌++◌, append_assoc, Bytes, Option, none, some, length,
  length-append, ltb, ◌==◌, if◌then◌else◌, arith, All,
}
use go_rsyncfs.Base.Bits.{bit_or_shifted, bit_and_mask}
use go_rsyncfs.Io.{
  Reader, ok, err, bind, ◌>>=◌, return, read_full, Output, wrote, refused, payload_too_large,
  out_of_fuel, eof, unexpected_eof, panic, ◌>>>◌,
}
use go_rsyncfs.Io.Laws.{read_full-append, read_full-shape}
use go_rsyncfs.Wire.Le.{le_bytes, le_value, length-le_bytes, le_value-le_bytes}
use go_rsyncfs.Wire.Fixed.RoundTrip.{read_full-le_bytes}

-- mplexBase and the largest payload, 2^24 - 1
abbrev pub mplex_base : ℕ
mplex_base = 7

abbrev pub max_payload : ℕ
max_payload = 0xff_ffff

abbrev pub msg_data : ℕ
msg_data = 0

-- isInfoMessage: MsgErrorXfer, MsgInfo, MsgError, MsgWarning, MsgErrorSocket, MsgLog, MsgClient,
-- MsgErrorUTF8 and MsgNoop.
unfoldable pub is_info_message : ℕ → Bool
is_info_message code =
    code == 1
    || code == 2
    || code == 3
    || code == 4
    || code == 5
    || code == 6
    || code == 7
    || code == 8
    || code == 42

-- `uint32(mplexBase+code)<<24|uint32(len(payload))`, where `mplexBase+code` is a uint8.
unfoldable pub header_tag : ℕ → ℕ → ℕ
header_tag code len = bit_or len ((mplex_base + code) % 256 * 2 ^ 24 % 2 ^ 32)

unfoldable pub write_frame : ℕ → Bytes → Output
write_frame code payload =
    if ltb max_payload (length payload)
    then refused payload_too_large
    else wrote (le_bytes 4 (header_tag code (length payload)) ++ payload)

-- `uint8((tag >> 24) - mplexBase)` and `tag & 0xFFFFFF`
code_of_tag : ℕ → ℕ
code_of_tag tag = (tag / 2 ^ 24 + (2 ^ 32 - mplex_base)) % 2 ^ 32 % 256

length_of_tag : ℕ → ℕ
length_of_tag tag = bit_and tag 0xff_ffff

read_payload : ℕ → Reader Bytes
read_payload len = if ltb 0 len then read_full len else return []

pub read_frame : Reader (ℕ × Bytes)
read_frame = do
  hdr ← read_full 4
  payload ← read_payload (length_of_tag (le_value hdr))
  return (code_of_tag (le_value hdr), payload)

-- A code and a payload that a frame can hold.
abbrev pub Frame : Type 0
Frame = ℕ × Bytes

abbrev pub IsFrame : Frame → Type 0
IsFrame f = (f.0 < 256) × (length f.1 ≤ max_payload)

abbrev pub frame_bytes : Frame → Bytes
frame_bytes f = (write_frame f.0 f.1).0

header_tag-eq :
    (code len : ℕ)
    → len ≤ max_payload
    → header_tag code len ≡ len + (mplex_base + code) % 256 * 2 ^ 24
unfolding header_tag
header_tag-eq code len h =
    ap (bit_or len) (omega arith) ∙ bit_or_shifted 24 len ((mplex_base + code) % 256) (omega arith)

read_payload-append : (p rest : Bytes) → read_payload (length p) (p ++ rest) ≡ ok p rest
unfolding read_payload
read_payload-append [] rest = refl
read_payload-append (b ∷ p) rest =
    ground (arith, read_full-append (suc (length p)) (b ∷ p) rest refl)

tag_code :
    (code len : ℕ) → code < 256 → len ≤ max_payload → code_of_tag (header_tag code len) ≡ code
unfolding code_of_tag
tag_code code len c h = omega (arith, header_tag-eq code len h)

tag_length : (code len : ℕ) → len ≤ max_payload → length_of_tag (header_tag code len) ≡ len
unfolding length_of_tag
tag_length code len h =
    omega (arith, header_tag-eq code len h, bit_and_mask 24 (header_tag code len))

pub write_frame-fits :
    (code : ℕ) (payload : Bytes)
    → length payload ≤ max_payload
    → write_frame code payload ≡ wrote (le_bytes 4 (header_tag code (length payload)) ++ payload)
unfolding write_frame
write_frame-fits code payload h = ground arith

header_tag-lt : (code len : ℕ) → len ≤ max_payload → header_tag code len < 2 ^ 32
header_tag-lt code len h = omega (arith, header_tag-eq code len h)

read_frame-tag :
    (code : ℕ) (payload rest : Bytes)
    → code < 256
    → length payload ≤ max_payload
    → read_frame (le_bytes 4 (header_tag code (length payload)) ++ (payload ++ rest))
      ≡ ok (code, payload) rest
unfolding read_frame
read_frame-tag code payload rest c h =
    let tag = header_tag code (length payload) in
    rw (
      read_full-le_bytes 4 tag (payload ++ rest),
      le_value-le_bytes 4 tag (header_tag-lt code (length payload) h),
      tag_length code (length payload) h,
      tag_code code (length payload) c h,
      read_payload-append payload rest,
    )

-- readFrame returns the code and the payload that writeFrame was given, for every code and every
-- payload that fits, and leaves what follows.
pub read_frame-write_frame :
    (code : ℕ) (payload rest : Bytes)
    → code < 256
    → length payload ≤ max_payload
    → read_frame ((write_frame code payload).0 ++ rest) ≡ ok (code, payload) rest
read_frame-write_frame code payload rest c h =
    rw (write_frame-fits code payload h, append_assoc) (read_frame-tag code payload rest c h)

pub write_frame-frame_bytes :
    (code : ℕ) (payload : Bytes)
    → length payload ≤ max_payload
    → write_frame code payload ≡ wrote (frame_bytes (code, payload))
unfolding write_frame
write_frame-frame_bytes code payload h = ground arith

pub length-frame_bytes : (f : Frame) → IsFrame f → length (frame_bytes f) ≡ 4 + length f.1
length-frame_bytes (code, payload) v =
    let tag = header_tag code (length payload) in
    ap (λ (o : Output). length o.0) (write_frame-fits code payload v.1)
    ∙ omega (arith, length-append {0} (le_bytes 4 tag) payload, length-le_bytes 4 tag)
