-- ===== src/Greet.antt =====
-- protocol/greet.go and the versions of protocol/constants.go: the greeting of each side and what
-- the two of them agree on. A version is a natural number here: Go's is an int that the peer may
-- make negative, which `Negotiate` refuses as it refuses every version below 20. A digest is its
-- bytes.
pub mod Agree
mod Examples
use go_rsyncfs.Base.{
  ℕ, ◌-◌, Bool, true, false, not, ◌&&◌, ◌||◌, List, [], ◌∷◌, Bytes, Option, none, some, ltb, leb,
  ◌==◌, if◌then◌else◌,
}

abbrev pub min_protocol_version : ℕ
min_protocol_version = 20

abbrev pub current_protocol_version : ℕ
current_protocol_version = 32

pub record Greeting : Type 0 where
  pub version : ℕ
  pub sub_protocol : ℕ
  pub digests : List Bytes

-- SupportedDigests: "md5", "md4"
abbrev pub md5_name : Bytes
md5_name = b'm' ∷ b'd' ∷ b'5' ∷ []

abbrev pub md4_name : Bytes
md4_name = b'm' ∷ b'd' ∷ b'4' ∷ []

abbrev pub supported_digests : List Bytes
supported_digests = md5_name ∷ md4_name ∷ []

unfoldable pub apply_default_digests : List Bytes → List Bytes
apply_default_digests [] = supported_digests
apply_default_digests (d ∷ digests) = d ∷ digests

unfoldable pub apply_defaults : Greeting → Greeting
unfolding apply_default_digests
apply_defaults g =
    let digests = apply_default_digests g.digests in
    if g.version == 0
    then record { version = current_protocol_version; sub_protocol = 0; digests = digests }
    else record g { digests = digests }

-- `cd == sd` on strings.
unfoldable pub same_name : Bytes → Bytes → Bool
same_name [] [] = true
same_name [] (d ∷ t) = false
same_name (c ∷ s) [] = false
same_name (c ∷ s) (d ∷ t) = c == d && same_name s t

-- The inner loop: is the digest one of the server's?
unfoldable pub offers : List Bytes → Bytes → Bool
offers [] cd = false
offers (sd ∷ server) cd = same_name cd sd || offers server cd

-- The outer loop; the empty string if no digest is common.
unfoldable pub first_common : List Bytes → List Bytes → Bytes
first_common [] server = []
first_common (cd ∷ client) server =
    let later = first_common client server in if offers server cd then cd else later

-- The lower version, taken down by one where the two subprotocols do not fit.
unfoldable pub pick_version : Greeting → Greeting → ℕ × ℕ
pick_version client server =
    if ltb server.version client.version
    then if not (server.sub_protocol == 0)
      then (server.version - 1, 0)
      else (server.version, server.sub_protocol)
    else if client.version == server.version
    then if not (client.sub_protocol == server.sub_protocol)
      then (client.version - 1, 0)
      else (client.version, client.sub_protocol)
    else if not (client.sub_protocol == 0)
    then (client.version - 1, 0)
    else (client.version, client.sub_protocol)

unfoldable pub fallback_digest : ℕ → Bytes → Bytes
fallback_digest version [] = if leb 30 version then md5_name else md4_name
fallback_digest version (c ∷ digest) = c ∷ digest

pub record Agreed : Type 0 where
  pub version : ℕ
  pub sub_protocol : ℕ
  pub digest : Bytes

unfoldable pub negotiate : Greeting → Greeting → Option Agreed
negotiate client server =
    let (version, sub_protocol) = pick_version client server in
    if ltb version min_protocol_version
    then none
    else some (record {
      version = version;
      sub_protocol = sub_protocol;
      digest = fallback_digest version (first_common client.digests server.digests);
    })
