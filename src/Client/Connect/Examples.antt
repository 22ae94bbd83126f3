-- ===== src/Client/Connect/Examples.antt =====
-- A client that is asked for a digest, and its connection.
use go_rsyncfs.Base.{
  ℕ, ◌≡◌, ◌≢◌, refl, ap, Bool, not, ◌&&◌, ◌==◌, true, false, List, [], ◌∷◌, ◌++◌, some, Bytes, All,
  length, arith,
}
use go_rsyncfs.Io.{ok}
use go_rsyncfs.Args.{delimiter}
use go_rsyncfs.Args.RoundTrip.{IsArgs}
use go_rsyncfs.Greet.{
  Greeting, Agreed, apply_defaults, negotiate, pick_version, first_common, offers, same_name,
  fallback_digest, md5_name,
}
use go_rsyncfs.Handshake.{is_space}
use go_rsyncfs.Handshake.Greetings.{IsGreeting}
use go_rsyncfs.Handshake.Answers.Examples.{moved, decode_moved, moved-IsCoding}
use go_rsyncfs.Server.{ServerModule, find_module}
use go_rsyncfs.Server.Handshake.{HandshakeResult, has_compat, do_handshake, list_text}
use go_rsyncfs.Client.Connect.{Client, Connected, transfer_args, transfer_argstr, run_handshake}
use go_rsyncfs.Client.Connect.Auth.{with_digest}
use go_rsyncfs.Client.Connect.Parts.{CanConnect, filters_text}
use go_rsyncfs.Client.Connect.Meets.{run_handshake-do_handshake}

abbrev no_greeting : Greeting
no_greeting = record { version = 0; sub_protocol = 0; digests = [] }

-- The digest is the bytes 1, 2 for everyone.
abbrev guarded : ServerModule
guarded = record {
  name = b'm' ∷ [];
  comment = [];
  root_opens = true;
  auth_callback = some (λ user asked. some (1 ∷ 2 ∷ []));
}

abbrev user : Client
user = record {
  module_name = b'm' ∷ [];
  greeting = no_greeting;
  auth_user = b'u' ∷ [];
  auth_response = some (λ digest asked. some (1 ∷ 2 ∷ []));
}

abbrev latest : Agreed
latest = record { version = 32; sub_protocol = 0; digest = md5_name }

fine : IsGreeting (apply_defaults no_greeting)
unfolding apply_defaults is_space
fine = record {
  version_fits = omega arith;
  one_digit = omega arith;
  named = (
    ((λ e. absurd (omega (arith, ap length e))), (refl, (refl, (refl, tt)))),
    (((λ e. absurd (omega (arith, ap length e))), (refl, (refl, (refl, tt)))), tt),
  );
}

agreement : negotiate (apply_defaults no_greeting) (apply_defaults no_greeting) ≡ some latest
unfolding negotiate apply_defaults pick_version first_common offers same_name fallback_digest
agreement = refl

guarded-found : find_module (guarded ∷ []) (b'm' ∷ []) ≡ some guarded
unfolding find_module same_name
guarded-found = refl

no_list_name : same_name (b'm' ∷ []) list_text ≡ false
unfolding same_name
no_list_name = refl

-- A text without a NUL, by a test.
no_zero : Bytes → Bool
no_zero [] = true
no_zero (b ∷ s) = not (b == 0) && no_zero s

no_zero-delimiter : (s : Bytes) → no_zero s ≡ true → All (λ (b : ℕ). b ≢ delimiter 32) s
unfolding no_zero delimiter
no_zero-delimiter [] e = tt
no_zero-delimiter (b ∷ s) e = (ground arith, no_zero-delimiter s (ground arith))

-- Arguments without a NUL, none of them empty.
all_fine : List Bytes → Bool
all_fine [] = true
all_fine ([] ∷ args) = false
all_fine ((b ∷ s) ∷ args) = no_zero (b ∷ s) && all_fine args

all_fine-IsArgs : (args : List Bytes) → all_fine args ≡ true → IsArgs 32 args
unfolding all_fine
all_fine-IsArgs [] e = tt
all_fine-IsArgs ([] ∷ args) e = cc
all_fine-IsArgs ((b ∷ s) ∷ args) e = (
  ((λ f. absurd (omega (arith, ap length f))), no_zero-delimiter (b ∷ s) (ground arith)),
  all_fine-IsArgs args (ground arith),
)

arguments : IsArgs 32 (transfer_args (b'm' ∷ []) 32)
unfolding transfer_args transfer_argstr no_zero all_fine
arguments = all_fine-IsArgs (transfer_args (b'm' ∷ []) 32) refl

can_connect : CanConnect no_greeting (guarded ∷ []) user guarded latest (5 ∷ 6 ∷ []) 77
unfolding is_space same_name
can_connect = record {
  fine_server = fine;
  fine_client = fine;
  agree = agreement;
  recent = omega arith;
  one_line = (refl, tt);
  no_list = refl;
  found = guarded-found;
  opens = refl;
  arguments = arguments;
  admits =
      with_digest (λ u asked. some (1 ∷ 2 ∷ [])) (λ digest asked. some (1 ∷ 2 ∷ [])) b'u' []
        (1 ∷ 2 ∷ []) refl refl (refl, tt) refl refl refl;
  seed_fits = omega arith;
}

run_handshake-do_handshake_example :
    (to_server : Bytes) × (to_client : Bytes) × (result : HandshakeResult) × (session : Connected)
    × (do_handshake moved decode_moved (5 ∷ 6 ∷ []) 77 no_greeting (guarded ∷ []) (to_server ++ [])
        ≡ (to_client, ok (some result) []))
    × (run_handshake moved decode_moved user (to_client ++ (9 ∷ []))
        ≡ (to_server ++ filters_text 32, ok session (9 ∷ [])))
    × (result.server_module ≡ guarded)
    × (session.version ≡ result.ver)
    × (session.checksum ≡ result.checksum)
    × (session.seed ≡ result.seed)
    × (has_compat session.compat_flags 7 ≡ result.varint)
    × (has_compat session.compat_flags 5 ≡ result.seed_fix)
    × (has_compat session.compat_flags 8 ≡ result.id0_names)
run_handshake-do_handshake_example =
    run_handshake-do_handshake moved decode_moved moved-IsCoding no_greeting (guarded ∷ []) user
      guarded latest (5 ∷ 6 ∷ []) 77 can_connect [] (9 ∷ [])
