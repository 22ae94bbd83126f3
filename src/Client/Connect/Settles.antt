-- ===== src/Client/Connect/Settles.antt =====
-- The compat flags and the algorithms that the two ends settle on.
use go_rsyncfs.Base.{
  ℕ, ◌+◌, ◌^◌, ◌≤◌, ◌<◌, ◌≡◌, refl, ap, ◌∙◌, true, false, [], ◌++◌, append-nil, none, Bytes, length,
  inl, inr, Bool-cases, ltb, leb, if◌then◌else◌, arith,
}
use go_rsyncfs.Io.{ok}
use go_rsyncfs.Args.{
  resolve_from, add_flag, compat_bit, is_short_option, after_byte, extract_client_info,
  resolve_compat_flags,
}
use go_rsyncfs.Greet.{supported_digests, same_name, md5_name, md4_name, first_common, offers}
use go_rsyncfs.Wire.Fixed.RoundTrip.{read_int32-write_int32}
use mathlib.Core.Path.{ap₂}
use go_rsyncfs.Handshake.{
  Settled, default_algorithms, negotiate_algorithms, join, is_space, write_compat_flags,
  read_compat_flags,
}
use go_rsyncfs.Handshake.Answers.{read_checksum_seed, write_checksum_seed}
use go_rsyncfs.Server.Handshake.{send_compat_flags, agree_checksum, send_seed, server_capabilities}
use go_rsyncfs.Client.Connect.{
  client_info, transfer_argstr, transfer_args, settle_checksum, read_seed,
}
use go_rsyncfs.Handshake.Algorithms.{IsName, IsOffer, negotiate_algorithms-first_common}
use go_rsyncfs.Handshake.Lines.{read_compat_flags-write_compat_flags}

-- The flags that the two ends of this program agree on from version 30 on.
abbrev pub agreed_flags : ℕ → ℕ
agreed_flags version = if leb 30 version then 2 ^ 3 + 2 ^ 4 + 2 ^ 5 + 2 ^ 7 else 0

client_flags : resolve_compat_flags server_capabilities client_info ≡ 2 ^ 3 + 2 ^ 4 + 2 ^ 5 + 2 ^ 7
unfolding resolve_compat_flags resolve_from add_flag compat_bit
client_flags = refl

client_info_sent :
    (name : Bytes) (version : ℕ)
    → leb 30 version ≡ true
    → extract_client_info (transfer_args name version) ≡ client_info
unfolding transfer_args extract_client_info is_short_option after_byte transfer_argstr
client_info_sent name version new = rw (transfer_argstr, new) refl

pub flags_sent :
    (name s : Bytes) (version : ℕ)
    → send_compat_flags version (transfer_args name version) s
      ≡ (write_compat_flags (agreed_flags version) version, ok (agreed_flags version) s)
unfolding send_compat_flags write_compat_flags
flags_sent name s version = elim (Bool-cases (leb 30 version)) [
  | inl new ↦
      let info = client_info_sent name version new in
      rw (send_compat_flags, new, info, client_flags)
        (ap (λ (w : Bytes). (w, ok (2 ^ 3 + 2 ^ 4 + 2 ^ 5 + 2 ^ 7) s)) (append-nil _))
  | inr old ↦
      let older : ltb version 30 ≡ true = ground arith in rw (send_compat_flags, old, older) refl
]

-- What each side offers, and what both settle on.
abbrev pub offer_bytes : ℕ → Bytes
offer_bytes version = if leb 30 version then (negotiate_algorithms supported_digests []).0 else []

abbrev pub common_checksum : ℕ → Bytes
common_checksum version = (default_algorithms version).checksum

md5-IsName : IsName md5_name
unfolding is_space
md5-IsName = (λ e. absurd (omega (arith, ap length e)), (refl, (refl, (refl, tt))))

md4-IsName : IsName md4_name
unfolding is_space
md4-IsName = (λ e. absurd (omega (arith, ap length e)), (refl, (refl, (refl, tt))))

supported-IsOffer : IsOffer supported_digests
unfolding join
supported-IsOffer = ((md5-IsName, (md4-IsName, tt)), omega arith)

none-IsOffer : IsOffer []
unfolding join
none-IsOffer = (tt, omega arith)

abbrev settled_on : Bytes → Bytes → Settled
settled_on x y = record { checksum = x; compress = y }

first_md5 : first_common supported_digests supported_digests ≡ md5_name
unfolding first_common offers same_name
first_md5 = refl

first_none : first_common [] [] ≡ []
unfolding first_common
first_none = refl

negotiated :
    (s : Bytes)
    → (negotiate_algorithms supported_digests []).1
        ((negotiate_algorithms supported_digests []).0 ++ s)
      ≡ ok (settled_on md5_name []) s
negotiated s =
    negotiate_algorithms-first_common supported_digests supported_digests [] [] s supported-IsOffer
      supported-IsOffer none-IsOffer none-IsOffer refl
    ∙ ap₂ (λ (x y : Bytes). ok (settled_on x y) s) first_md5 first_none

pub checksum_agreed :
    (version : ℕ) (s : Bytes)
    → agree_checksum version (agreed_flags version) (offer_bytes version ++ s)
      ≡ (offer_bytes version, ok (common_checksum version) s)
unfolding agree_checksum default_algorithms
checksum_agreed version s = elim (Bool-cases (leb 30 version)) [
  | inl new ↦
      rw (agree_checksum, new, negotiated s) (ap (λ (w : Bytes). (w, ok md5_name s)) (append-nil _))
  | inr old ↦ rw (agree_checksum, old) refl
]

no_flags_sent : (version flags : ℕ) → leb 30 version ≡ false → write_compat_flags flags version ≡ []
unfolding write_compat_flags
no_flags_sent version flags old = let older : ltb version 30 ≡ true = ground arith in rw older refl

flags_received :
    (version flags : ℕ) (t : Bytes)
    → leb 30 version ≡ true
    → flags < 2 ^ 32
    → read_compat_flags version (write_compat_flags flags version ++ t) ≡ ok flags t
flags_received version flags t new small =
    let newer : ltb version 30 ≡ false = ground arith in
    read_compat_flags-write_compat_flags flags version t small ∙ rw newer refl

pub checksum_settled :
    (version : ℕ) (t : Bytes)
    → settle_checksum version
        (write_compat_flags (agreed_flags version) version ++ (offer_bytes version ++ t))
      ≡ (offer_bytes version, ok (agreed_flags version, common_checksum version) t)
unfolding settle_checksum default_algorithms
checksum_settled version t = elim (Bool-cases (leb 30 version)) [
  | inl new ↦
      rw
        (
          settle_checksum,
          new,
          flags_received version (2 ^ 3 + 2 ^ 4 + 2 ^ 5 + 2 ^ 7)
              ((negotiate_algorithms supported_digests []).0 ++ t) new (omega arith),
          negotiated t,
        )
        (ap (λ (w : Bytes). (w, ok (2 ^ 3 + 2 ^ 4 + 2 ^ 5 + 2 ^ 7, md5_name) t)) (append-nil _))
  | inr old ↦ rw (settle_checksum, old, no_flags_sent version 0 old) refl
]

-- From version 23 on the seed is plain.
pub seed_sent :
    (version seed : ℕ) (s : Bytes)
    → 23 ≤ version
    → send_seed version seed s ≡ (write_checksum_seed seed, ok none s)
unfolding send_seed
seed_sent version seed s h =
    let plain : ltb version 23 ≡ false = ground arith in
    rw (send_seed, plain) (ap (λ (w : Bytes). (w, ok none s)) (append-nil _))

pub seed_received :
    (version seed : ℕ) (t : Bytes)
    → 23 ≤ version
    → seed < 2 ^ 32
    → read_seed version (write_checksum_seed seed ++ t) ≡ ok (seed, []) t
unfolding read_seed read_checksum_seed write_checksum_seed
seed_received version seed t h small =
    let plain : ltb version 23 ≡ false = ground arith in
    rw (plain, read_int32-write_int32 seed t small) refl
