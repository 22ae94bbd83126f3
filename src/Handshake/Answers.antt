-- ===== src/Handshake/Answers.antt =====
-- The lines behind the greeting (protocol/handshake.go): the request of a module, the list of
-- modules, the challenge and its response, and errors. Names are ASCII. The encoding of
-- encoding/base64 is a parameter.
pub mod Passes
pub mod Examples
use go_rsyncfs.Base.{
  ℕ, zero, suc, ◌+◌, ◌-◌, ◌≡◌, ◌≢◌, refl, ap, sym, ◌∙◌, Bool, true, false, Bool-cases, inl, inr,
  List, [], ◌∷◌, ◌++◌, append_assoc, append-nil, Option, none, some, Bytes, length, length-append,
  leb, ◌==◌, if◌then◌else◌, All, All-append, arith, ◌<◌,
}
use go_rsyncfs.Io.{
  Result, Reader, ◌>>=◌, return, fail, ok, err, out_of_fuel, server_error, server_exited,
  invalid_base64, invalid_auth_response, Output,
}
use go_rsyncfs.Wire.Fixed.{write_int32, read_int32}
use go_rsyncfs.Handshake.{read_line, write_line}
use go_rsyncfs.Handshake.Greetings.{rsyncd}
use go_rsyncfs.Handshake.Text.{cut_prefix, cut, trim_space}

unfoldable pub read_module_request : Reader Bytes
read_module_request = read_line

unfoldable pub write_module_request : Bytes → Output
write_module_request name = write_line name

pub record ModuleInfo : Type 0 where
  pub name : Bytes
  pub comment : Bytes

unfoldable pub spaces : ℕ → Bytes
spaces zero = []
spaces (suc n) = b' ' ∷ spaces n

-- "@RSYNCD: EXIT"
abbrev pub exit_text : Bytes
exit_text = rsyncd ++ (b' ' ∷ b'E' ∷ b'X' ∷ b'I' ∷ b'T' ∷ [])

unfoldable pub module_line : ModuleInfo → Bytes
unfolding spaces
module_line m = m.name ++ (spaces (15 - length m.name) ++ (b'\t' ∷ (m.comment ++ (b'\n' ∷ []))))

unfoldable pub module_lines : List ModuleInfo → Bytes
module_lines [] = []
module_lines (m ∷ modules) = module_line m ++ module_lines modules

unfoldable pub write_module_list : List ModuleInfo → ℕ → Bytes
unfolding module_lines
write_module_list modules version =
    module_lines modules ++ (if leb 25 version then exit_text ++ (b'\n' ∷ []) else [])

-- "@ERROR: "
abbrev pub error_text : Bytes
error_text = b'@' ∷ b'E' ∷ b'R' ∷ b'R' ∷ b'O' ∷ b'R' ∷ b':' ∷ b' ' ∷ []

-- "@RSYNCD: OK"
abbrev pub ok_text : Bytes
ok_text = rsyncd ++ (b' ' ∷ b'O' ∷ b'K' ∷ [])

-- "@RSYNCD: AUTHREQD "
abbrev pub auth_text : Bytes
auth_text = rsyncd ++ (b' ' ∷ b'A' ∷ b'U' ∷ b'T' ∷ b'H' ∷ b'R' ∷ b'E' ∷ b'Q' ∷ b'D' ∷ b' ' ∷ [])

-- The message of an error line.
unfoldable pub parse_error : Bytes → Option Bytes
parse_error line = cut_prefix error_text line

unfoldable pub write_error : Bytes → Bytes
write_error msg = error_text ++ (msg ++ (b'\n' ∷ []))

unfoldable pub write_auth_ok : Bytes
write_auth_ok = ok_text ++ (b'\n' ∷ [])

abbrev pub is_some : Option Bytes → Bool
is_some none = false
is_some (some s) = true

unfoldable pub has_prefix : Bytes → Bytes → Bool
has_prefix prefix line = is_some (cut_prefix prefix line)

-- What ReadAuthChallenge returns: nil for an OK, or the challenge.
pub data Answer : Type 0 where
  granted : Answer
  challenge : Bytes → Answer

module _ (encode : Bytes → Bytes) (decode : Bytes → Option Bytes) where
  unfoldable pub write_auth_challenge : Bytes → Bytes
  write_auth_challenge c = auth_text ++ (encode c ++ (b'\n' ∷ []))

  unfoldable pub decoded : Bytes → Reader Bytes
  decoded s = elim (decode s) [ none ↦ fail invalid_base64 | some c ↦ return c ]

  -- A line of the server: an error, an answer, the end of the connection, or a line to be skipped,
  -- behind which `next` goes on.
  unfoldable pub on_line : Bytes → Reader Answer → Reader Answer
  on_line line next = elim (parse_error line) [
    | some msg ↦ fail (server_error msg)
    | none ↦ elim (has_prefix ok_text line) [
      | true ↦ return granted
      | false ↦ elim (has_prefix exit_text line) [
        | true ↦ fail (server_exited line)
        | false ↦ elim (cut_prefix auth_text line) [
          | some s ↦ decoded (trim_space s) >>= (λ c. return (challenge c))
          | none ↦ next
        ]
      ]
    ]
  ]

  -- The loop over the lines.
  unfoldable pub read_answer : ℕ → Reader Answer
  read_answer zero = fail out_of_fuel
  read_answer (suc fuel) = do line ← read_line; on_line line (read_answer fuel)

  -- A line takes a byte at least.
  unfoldable pub read_auth_challenge : Reader Answer
  read_auth_challenge s = read_answer (suc (length s)) s

  unfoldable pub write_auth_response : Bytes → Bytes → Bytes
  write_auth_response username digest = username ++ (b' ' ∷ (encode digest ++ (b'\n' ∷ [])))

  unfoldable pub split_response : Bytes × Option Bytes → Reader (Bytes × Bytes)
  split_response (username, none) = fail invalid_auth_response
  split_response (username, some s) = decoded s >>= (λ digest. return (username, digest))

  unfoldable pub read_auth_response : Reader (Bytes × Bytes)
  read_auth_response = do line ← read_line; split_response (cut b' ' line)

unfoldable pub read_checksum_seed : Reader ℕ
read_checksum_seed = read_int32

unfoldable pub write_checksum_seed : ℕ → Bytes
write_checksum_seed seed = write_int32 seed
