-- ===== src/Server/Handshake.antt =====
-- The handshake of the server (server-handshake.go doHandshake). The bytes of rand.Read are
-- parameters: the challenge, and the seed as it comes from there or from the clock. The modules of
-- a list are sent in the order that the map is ranged over.
use go_rsyncfs.Base.{
  ℕ, ◌+◌, ◌^◌, bit_and, Bool, not, ◌||◌, List, [], ◌∷◌, map, Option, none, some, Bytes, ltb, leb,
  ◌==◌, if◌then◌else◌,
}
use go_rsyncfs.Io.{Result, ok, err, eof, version_refused, unknown_module, chdir_failed, auth_failed}
use go_rsyncfs.Io.Exchange.{Exchange, ◌>>=◌, return, send, receive, refuse, receive_or_tell}
use go_rsyncfs.Equal.{hash_equal}
use go_rsyncfs.Args.{
  read_args, extract_client_info, resolve_compat_flags, PreserveFlags, extract_preserve_flags,
}
use go_rsyncfs.Greet.{Greeting, apply_defaults, negotiate, supported_digests, same_name}
use go_rsyncfs.Handshake.{write_compat_flags, default_algorithms, negotiate_algorithms}
use go_rsyncfs.Handshake.Greetings.{write_greeting, read_greeting}
use go_rsyncfs.Handshake.Answers.{
  ModuleInfo, read_module_request, write_module_list, write_error, write_auth_ok,
  write_auth_challenge, read_auth_response, write_checksum_seed,
}
use go_rsyncfs.Mux.Writer.{Writer, new_writer, write}
use go_rsyncfs.Server.{ServerModule, find_module}

-- "invalid greeting"
abbrev pub invalid_text : Bytes
invalid_text =
    b'i' ∷ b'n' ∷ b'v' ∷ b'a' ∷ b'l' ∷ b'i' ∷ b'd' ∷ b' ' ∷ b'g' ∷ b'r' ∷ b'e' ∷ b'e' ∷ b't' ∷ b'i'
    ∷ b'n' ∷ b'g' ∷ []

-- "protocol version negotiation failed"
abbrev pub version_text : Bytes
version_text =
    b'p' ∷ b'r' ∷ b'o' ∷ b't' ∷ b'o' ∷ b'c' ∷ b'o' ∷ b'l' ∷ b' ' ∷ b'v' ∷ b'e' ∷ b'r' ∷ b's' ∷ b'i'
    ∷ b'o' ∷ b'n' ∷ b' ' ∷ b'n' ∷ b'e' ∷ b'g' ∷ b'o' ∷ b't' ∷ b'i' ∷ b'a' ∷ b't' ∷ b'i' ∷ b'o'
    ∷ b'n' ∷ b' ' ∷ b'f' ∷ b'a' ∷ b'i' ∷ b'l' ∷ b'e' ∷ b'd' ∷ []

-- "Unknown module"
abbrev pub unknown_text : Bytes
unknown_text =
    b'U' ∷ b'n' ∷ b'k' ∷ b'n' ∷ b'o' ∷ b'w' ∷ b'n' ∷ b' ' ∷ b'm' ∷ b'o' ∷ b'd' ∷ b'u' ∷ b'l' ∷ b'e'
    ∷ []

-- "chdir failed"
abbrev pub chdir_text : Bytes
chdir_text = b'c' ∷ b'h' ∷ b'd' ∷ b'i' ∷ b'r' ∷ b' ' ∷ b'f' ∷ b'a' ∷ b'i' ∷ b'l' ∷ b'e' ∷ b'd' ∷ []

-- "Authentication failed"
abbrev pub auth_failed_text : Bytes
auth_failed_text =
    b'A' ∷ b'u' ∷ b't' ∷ b'h' ∷ b'e' ∷ b'n' ∷ b't' ∷ b'i' ∷ b'c' ∷ b'a' ∷ b't' ∷ b'i' ∷ b'o' ∷ b'n'
    ∷ b' ' ∷ b'f' ∷ b'a' ∷ b'i' ∷ b'l' ∷ b'e' ∷ b'd' ∷ []

-- "#list"
abbrev pub list_text : Bytes
list_text = b'#' ∷ b'l' ∷ b'i' ∷ b's' ∷ b't' ∷ []

-- SymlinkTimes, SafeFlist, AvoidXattrOptim, ChksumSeedFix and VarintFlistFlags.
abbrev pub server_capabilities : ℕ
server_capabilities = 2 ^ 1 + 2 ^ 3 + 2 ^ 4 + 2 ^ 5 + 2 ^ 7

-- `flags & (1 << k) != 0`
abbrev pub has_compat : ℕ → ℕ → Bool
has_compat flags k = not (bit_and flags (2 ^ k) == 0)

pub record HandshakeResult : Type 0 where
  pub server_module : ServerModule
  pub ver : ℕ
  pub varint : Bool
  pub seed_fix : Bool
  pub id0_names : Bool
  pub preserve : PreserveFlags
  pub checksum : Bytes
  pub seed : ℕ
  pub out_mw : Option Writer

-- The greetings and the version.
unfoldable pub greet_client : Greeting → Exchange ℕ
greet_client g = do
  hello ← send (write_greeting (apply_defaults g))
  client ← receive_or_tell (write_error invalid_text) read_greeting
  elim (negotiate client (apply_defaults g)) [
    | none ↦ refuse (write_error version_text) version_refused
    | some agreed ↦ return agreed.version
  ]

-- The end of the stream before a request is a clean disconnect.
abbrev pub clean_end : Result Bytes → Result (Option Bytes)
clean_end (ok name s) = ok (some name) s
clean_end (err eof s) = ok none s
clean_end (err e s) = err e s

unfoldable pub read_request : Exchange (Option Bytes)
read_request s = ([], clean_end (read_module_request s))

abbrev pub module_info : ServerModule → ModuleInfo
module_info m = record { name = m.name; comment = m.comment }

-- The flags that a version 30 client and this server share.
unfoldable pub send_compat_flags : ℕ → List Bytes → Exchange ℕ
send_compat_flags version args =
    if leb 30 version
    then (do
      let flags = resolve_compat_flags server_capabilities (extract_client_info args)
      sent ← send (write_compat_flags flags version)
      return flags)
    else return 0

-- The name of the strong checksum.
unfoldable pub agree_checksum : ℕ → ℕ → Exchange Bytes
agree_checksum version flags =
    if has_compat flags 7
    then (do
      sent ← send (negotiate_algorithms supported_digests []).0
      settled ← receive (negotiate_algorithms supported_digests []).1
      return settled.checksum)
    else return (default_algorithms version).checksum

-- A seed of 0 is made another one.
abbrev pub nonzero_seed : ℕ → ℕ
nonzero_seed seed = if seed == 0 then 32761 else seed

-- Below version 23 the seed goes to the mux writer, which keeps it in its buffer.
unfoldable pub send_seed : ℕ → ℕ → Exchange (Option Writer)
send_seed version seed =
    if ltb version 23
    then return (some (write new_writer (write_checksum_seed seed)).0.0)
    else (do sent ← send (write_checksum_seed seed); return none)

-- The encoding of encoding/base64 is a parameter, as in Handshake.Answers.
module _ (encode : Bytes → Bytes) (decode : Bytes → Option Bytes) (challenge : Bytes)
    (random_seed : ℕ) where
  unfoldable pub authenticate : ServerModule → Exchange (Unit {0})
  authenticate m = elim m.auth_callback [
    | none ↦ send write_auth_ok
    | some callback ↦ (do
      asked ← send (write_auth_challenge encode decode challenge)
      (username, response) ←
          receive_or_tell (write_error auth_failed_text) (read_auth_response encode decode)
      elim (callback username challenge) [
        | none ↦ refuse (write_error auth_failed_text) auth_failed
        | some expected ↦
            if hash_equal response expected
            then send write_auth_ok
            else refuse (write_error auth_failed_text) auth_failed
      ])
  ]

  -- doHandshake behind the selection of a module.
  unfoldable pub set_up : ℕ → ServerModule → Exchange HandshakeResult
  set_up version m = do
    granted ← authenticate m
    args ← receive (read_args version)
    flags ← send_compat_flags version args
    checksum ← agree_checksum version flags
    out_mw ← send_seed version (nonzero_seed random_seed)
    return (record {
      server_module = m;
      ver = version;
      varint = has_compat flags 7;
      seed_fix = has_compat flags 5;
      id0_names = has_compat flags 8;
      preserve = extract_preserve_flags args;
      checksum = checksum;
      seed = nonzero_seed random_seed;
      out_mw = out_mw;
    })

  -- The answer to a request.
  unfoldable pub select_module :
      List ServerModule → ℕ → Option Bytes → Exchange (Option HandshakeResult)
  select_module modules version none = return none
  select_module modules version (some name) =
      if same_name name list_text || same_name name []
      then (do sent ← send (write_module_list (map module_info modules) version); return none)
      else elim (find_module modules name) [
        | none ↦ refuse (write_error unknown_text) unknown_module
        | some m ↦
            if m.root_opens
            then (do result ← set_up version m; return (some result))
            else refuse (write_error chdir_text) chdir_failed
      ]

  unfoldable pub do_handshake : Greeting → List ServerModule → Exchange (Option HandshakeResult)
  do_handshake g modules = do
    version ← greet_client g
    request ← read_request
    select_module modules version request
