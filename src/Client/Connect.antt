-- ===== src/Client/Connect.antt =====
-- The handshake of the client (client-connect.go runHandshake): transferArgstr, and what it writes
-- and reads until the session stands.
pub mod Auth
pub mod Settles
pub mod Parts
pub mod Meets
mod Examples
use go_rsyncfs.Base.{
  ℕ, zero, suc, ◌+◌, ◌-◌, ◌^◌, bit_and, Bool, not, List, [], ◌∷◌, ◌++◌, Option, none, some, Bytes,
  length, ltb, leb, ◌==◌, if◌then◌else◌,
}
use go_rsyncfs.Io.{
  Result, Reader, bind, ok, err, eof, unexpected_eof, out_of_fuel, version_refused, auth_missing,
  auth_failed,
}
use go_rsyncfs.Io.Exchange.{Exchange, ◌>>=◌, return, fail, send, receive}
use go_rsyncfs.Args.{write_args}
use go_rsyncfs.Greet.{Greeting, Agreed, apply_defaults, negotiate, supported_digests}
use go_rsyncfs.Wire.Le.{le_value}
use go_rsyncfs.Wire.Fixed.{write_int32}
use go_rsyncfs.Handshake.{read_compat_flags, Settled, default_algorithms, negotiate_algorithms}
use go_rsyncfs.Handshake.Greetings.{write_greeting, read_greeting}
use go_rsyncfs.Handshake.Answers.{
  Answer, granted, challenge, read_auth_challenge, write_auth_response, write_module_request,
  read_checksum_seed,
}
use go_rsyncfs.Mux.Reader.{read}
use go_rsyncfs.Mux.Writer.{Writer, new_writer, write}

-- `clientInfo`, ".fxCv", and transferArgstr.
abbrev pub client_info : Bytes
client_info = b'.' ∷ b'f' ∷ b'x' ∷ b'C' ∷ b'v' ∷ []

unfoldable pub transfer_argstr : ℕ → Bytes
transfer_argstr version =
    b'-'
    ∷ b'l'
    ∷ b'o'
    ∷ b'g'
    ∷ b'D'
    ∷ b't'
    ∷ b'p'
    ∷ b'r'
    ∷ (if leb 30 version then b'e' ∷ client_info else [])

-- The arguments for a module: "--server", "--sender", the options, "." and "<module>/".
unfoldable pub transfer_args : Bytes → ℕ → List Bytes
transfer_args name version =
    (b'-' ∷ b'-' ∷ b's' ∷ b'e' ∷ b'r' ∷ b'v' ∷ b'e' ∷ b'r' ∷ [])
    ∷ (b'-' ∷ b'-' ∷ b's' ∷ b'e' ∷ b'n' ∷ b'd' ∷ b'e' ∷ b'r' ∷ [])
    ∷ transfer_argstr version
    ∷ (b'.' ∷ [])
    ∷ (name ++ (b'/' ∷ []))
    ∷ []

-- The configuration of a client. No `auth_response` is a nil function.
pub record Client : Type 0 where
  pub module_name : Bytes
  pub greeting : Greeting
  pub auth_user : Bytes
  pub auth_response : Option (Bytes → Bytes → Option Bytes)

-- The session as runHandshake leaves it. `mux_in` is the buffer of the mux reader, `mux_out` the
-- mux writer of version 30 on.
pub record Connected : Type 0 where
  pub version : ℕ
  pub sub_protocol : ℕ
  pub digest : Bytes
  pub checksum : Bytes
  pub seed : ℕ
  pub compat_flags : ℕ
  pub mux_in : Bytes
  pub mux_out : Option Writer

-- The greetings.
unfoldable pub greet_server : Greeting → Exchange Agreed
greet_server g = do
  hello ← send (write_greeting (apply_defaults g))
  server ← receive read_greeting
  elim (negotiate (apply_defaults g) server) [
    | none ↦ fail version_refused
    | some agreed ↦ return agreed
  ]

-- The end of the stream behind some bytes.
abbrev pub cut_short {ℓ} : {A : Type ℓ} → Result A → Result A
cut_short (ok a s) = ok a s
cut_short (err eof s) = err unexpected_eof s
cut_short (err e s) = err e s

-- io.ReadFull over the mux reader, with its buffer: a round takes a byte at least.
unfoldable pub read_full_mux : ℕ → ℕ → Bytes → Reader (Bytes × Bytes)
read_full_mux zero n buf s = ok ([], buf) s
read_full_mux (suc fuel) zero buf s = ok ([], buf) s
read_full_mux (suc fuel) (suc n) buf s = bind (read (suc n) buf s) (λ p t.
    bind (cut_short (read_full_mux fuel (suc n - length p.0) p.1 t))
      (λ q u. ok (p.0 ++ q.0, q.1) u))

-- The seed with the buffer of the mux reader, which reads it below version 23 already.
unfoldable pub read_seed : ℕ → Reader (ℕ × Bytes)
read_seed version s =
    if ltb version 23
    then bind (read_full_mux 4 4 [] s) (λ p t. ok (le_value p.0, p.1) t)
    else bind (read_checksum_seed s) (λ seed t. ok (seed, []) t)

-- Algorithms by the flags that the server sent.
unfoldable pub settle_checksum : ℕ → Exchange (ℕ × Bytes)
settle_checksum version =
    if leb 30 version
    then (do
      flags ← receive (read_compat_flags version)
      if not (bit_and flags (2 ^ 7) == 0)
          then (do
            sent ← send (negotiate_algorithms supported_digests []).0
            settled ← receive (negotiate_algorithms supported_digests []).1
            return (flags, settled.checksum))
          else return (flags, (default_algorithms version).checksum))
    else return (0, (default_algorithms version).checksum)

-- The empty filter list: the mux writer of version 30 on keeps it in its buffer.
unfoldable pub send_filters : ℕ → Exchange (Option Writer)
send_filters version =
    if leb 30 version
    then return (some (write new_writer (write_int32 0)).0.0)
    else (do sent ← send (write_int32 0); return none)

-- runHandshake behind the arguments.
unfoldable pub open_session : Agreed → Exchange Connected
open_session agreed = do
  (flags, checksum) ← settle_checksum agreed.version
  (seed, mux_in) ← receive (read_seed agreed.version)
  mux_out ← send_filters agreed.version
  return (record {
    version = agreed.version;
    sub_protocol = agreed.sub_protocol;
    digest = agreed.digest;
    checksum = checksum;
    seed = seed;
    compat_flags = flags;
    mux_in = mux_in;
    mux_out = mux_out;
  })

-- The digest that answers a challenge; without a user or a function there is none.
abbrev pub respond : Client → Bytes → Bytes → Result Bytes
respond c digest asked = elim c.auth_user [
  | [] ↦ err auth_missing []
  | b ∷ user ↦ elim c.auth_response [
    | none ↦ err auth_missing []
    | some f ↦ elim (f digest asked) [ none ↦ err auth_failed [] | some answer ↦ ok answer [] ]
  ]
]

module _ (encode : Bytes → Bytes) (decode : Bytes → Option Bytes) (c : Client) where
  -- What the client does with an answer, and then with `next`.
  unfoldable pub on_answer : Bytes → Exchange (Unit {0}) → Answer → Exchange (Unit {0})
  on_answer digest next granted = return tt
  on_answer digest next (challenge asked) = elim (respond c digest asked) [
    | err e s ↦ fail e
    | ok answer s ↦ (do sent ← send (write_auth_response encode decode c.auth_user answer); next)
  ]

  -- The loop until the server grants the module.
  unfoldable pub pass_challenges : ℕ → Bytes → Exchange (Unit {0})
  pass_challenges zero digest = fail out_of_fuel
  pass_challenges (suc fuel) digest = do
    answer ← receive (read_auth_challenge encode decode)
    on_answer digest (pass_challenges fuel digest) answer

  -- An answer takes a byte at least.
  unfoldable pub enter_module : Bytes → Exchange (Unit {0})
  enter_module digest s = pass_challenges (suc (length s)) digest s

  unfoldable pub run_handshake : Exchange Connected
  run_handshake = do
    agreed ← greet_server c.greeting
    requested ← send (write_module_request c.module_name).0
    entered ← enter_module agreed.digest
    arguments ← send (write_args (transfer_args c.module_name agreed.version) agreed.version).0
    open_session agreed
