-- ===== src/Client/Connect/Parts.antt =====
-- The phases of the two handshakes, one against the other, and what a connection needs.
use go_rsyncfs.Base.{
  ℕ, ◌^◌, ◌≤◌, ◌<◌, ◌≡◌, refl, ap, Bool, true, false, ◌||◌, List, [], ◌++◌, append-nil, Option,
  none, some, Bytes, inl, inr, Bool-cases, leb, if◌then◌else◌,
}
use go_rsyncfs.Io.{Result, ok}
use go_rsyncfs.Io.Exchange.{Exchange, ◌>>=◌, return}
use go_rsyncfs.Args.{extract_preserve_flags, read_args, write_args}
use go_rsyncfs.Args.RoundTrip.{IsArgs, read_args-write_args}
use go_rsyncfs.Greet.{Greeting, Agreed, apply_defaults, negotiate, same_name}
use go_rsyncfs.Wire.Fixed.{write_int32}
use go_rsyncfs.Client.Connect.Auth.{Admits}
use go_rsyncfs.Client.Connect.Settles.{agreed_flags, common_checksum}
use go_rsyncfs.Handshake.Lines.{read_line-write_line}
use go_rsyncfs.Handshake.Greetings.{IsGreeting, write_greeting, read_greeting-write_greeting}
use go_rsyncfs.Handshake.Answers.{read_module_request, write_module_request}
use go_rsyncfs.Handshake.Answers.Passes.{IsLine}
use go_rsyncfs.Mux.Writer.{Writer, new_writer, write}
use go_rsyncfs.Server.{ServerModule, find_module}
use go_rsyncfs.Server.Handshake.{
  greet_client, read_request, nonzero_seed, list_text, HandshakeResult, has_compat,
}
use go_rsyncfs.Client.Connect.{Client, greet_server, transfer_args, send_filters, Connected}

pub if_true {ℓ} : {A : Type ℓ} (b : Bool) (x y : A) → b ≡ true → (if b then x else y) ≡ x
if_true true x y e = refl
if_true false x y e = cc

-- One part of an exchange behind another.
pub chain {ℓ κ} :
    {A : Type ℓ} {B : Type κ} (m : Exchange A) (f : A → Exchange B) (s t w v : Bytes) (a : A)
    (r : Result B)
    → m s ≡ (w, ok a t)
    → f a t ≡ (v, r)
    → (m >>= f) s ≡ (w ++ v, r)
chain m f s t w v a r e g = rw (e, g) refl

-- The last part of an exchange, whose value is put into the result.
pub finish {ℓ κ} :
    {A : Type ℓ} {B : Type κ} (m : Exchange A) (s t w : Bytes) (a : A) (f : A → B)
    → m s ≡ (w, ok a t)
    → (m >>= (λ x. return (f x))) s ≡ (w, ok (f a) t)
finish m s t w a f e = rw e (ap (λ (v : Bytes). (v, ok (f a) t)) (append-nil w))

module _ (server client : Greeting) (agreed : Agreed)
    (fine_server : IsGreeting (apply_defaults server))
    (fine_client : IsGreeting (apply_defaults client))
    (agree : negotiate (apply_defaults client) (apply_defaults server) ≡ some agreed) where
  pub server_greets :
      (s : Bytes)
      → greet_client server (write_greeting (apply_defaults client) ++ s)
        ≡ (write_greeting (apply_defaults server), ok agreed.version s)
  unfolding greet_client
  server_greets s =
      rw (greet_client, read_greeting-write_greeting (apply_defaults client) fine_client s)
        (rw agree (ap (λ (w : Bytes). (w, ok agreed.version s)) (append-nil _)))

  pub client_greets :
      (s : Bytes)
      → greet_server client (write_greeting (apply_defaults server) ++ s)
        ≡ (write_greeting (apply_defaults client), ok agreed s)
  unfolding greet_server
  client_greets s =
      rw (greet_server, read_greeting-write_greeting (apply_defaults server) fine_server s)
        (rw agree (ap (λ (w : Bytes). (w, ok agreed s)) (append-nil _)))

pub request_read :
    (name s : Bytes)
    → IsLine name
    → read_request ((write_module_request name).0 ++ s) ≡ ([], ok (some name) s)
unfolding read_request read_module_request write_module_request
request_read name s h = rw (read_line-write_line name s h) refl

-- What a connection needs: greetings that their text can carry and that agree on a version from 23
-- on, the name of a module whose root opens, arguments without a delimiter, and a module
-- that takes the client.
pub record CanConnect (server : Greeting) (modules : List ServerModule) (c : Client)
    (m : ServerModule) (agreed : Agreed) (asked : Bytes) (random_seed : ℕ) : Type 0 where
  pub fine_server : IsGreeting (apply_defaults server)
  pub fine_client : IsGreeting (apply_defaults c.greeting)
  pub agree : negotiate (apply_defaults c.greeting) (apply_defaults server) ≡ some agreed
  pub recent : 23 ≤ agreed.version
  pub one_line : IsLine c.module_name
  pub no_list : (same_name c.module_name list_text || same_name c.module_name []) ≡ false
  pub found : find_module modules c.module_name ≡ some m
  pub opens : m.root_opens ≡ true
  pub arguments : IsArgs agreed.version (transfer_args c.module_name agreed.version)
  pub admits : Admits c m agreed.digest asked
  pub seed_fits : random_seed < 2 ^ 32

pub args_read :
    (name s : Bytes) (version : ℕ)
    → IsArgs version (transfer_args name version)
    → read_args version ((write_args (transfer_args name version) version).0 ++ s)
      ≡ ok (transfer_args name version) s
unfolding transfer_args
args_read name s version h = read_args-write_args (transfer_args name version) version s h

-- The flags and the checksum of the two ends.
abbrev pub result_of : ServerModule → Bytes → ℕ → ℕ → HandshakeResult
result_of m name version seed = record {
  server_module = m;
  ver = version;
  varint = has_compat (agreed_flags version) 7;
  seed_fix = has_compat (agreed_flags version) 5;
  id0_names = has_compat (agreed_flags version) 8;
  preserve = extract_preserve_flags (transfer_args name version);
  checksum = common_checksum version;
  seed = nonzero_seed seed;
  out_mw = none;
}

-- The empty filter list: plain below version 30, then in the buffer of the mux writer.
abbrev pub filters_text : ℕ → Bytes
filters_text version = if leb 30 version then [] else write_int32 0

abbrev pub mux_of : ℕ → Option Writer
mux_of version = if leb 30 version then some (write new_writer (write_int32 0)).0.0 else none

pub filters_sent :
    (version : ℕ) (t : Bytes)
    → send_filters version t ≡ (filters_text version, ok (mux_of version) t)
unfolding send_filters
filters_sent version t = elim (Bool-cases (leb 30 version)) [
  | inl new ↦ rw (send_filters, new) refl
  | inr old ↦ rw (send_filters, old) (ap (λ (w : Bytes). (w, ok none t)) (append-nil _))
]

abbrev pub session_of : Agreed → ℕ → Connected
session_of agreed seed = record {
  version = agreed.version;
  sub_protocol = agreed.sub_protocol;
  digest = agreed.digest;
  checksum = common_checksum agreed.version;
  seed = nonzero_seed seed;
  compat_flags = agreed_flags agreed.version;
  mux_in = [];
  mux_out = mux_of agreed.version;
}
