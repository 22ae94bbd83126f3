-- ===== src/Client/Connect/Auth.antt =====
-- The authentication of the client by the server.
use go_rsyncfs.Base.{
  ℕ, suc, ◌-◌, ◌<◌, ◌≡◌, refl, ap, false, [], ◌∷◌, ◌++◌, append_assoc, append-nil, Option, none,
  some, Bytes, length, All, arith,
}
use go_rsyncfs.Io.{ok}
use go_rsyncfs.Equal.{bytes_equal_same, hash_equal-bytes_equal}
use go_rsyncfs.Handshake.{is_space}
use go_rsyncfs.Handshake.Answers.{write_auth_ok, write_auth_challenge, write_auth_response}
use go_rsyncfs.Handshake.Answers.Passes.{
  IsCoding, read_auth_challenge-answers, read_auth_response-write_auth_response,
}
use go_rsyncfs.Server.{ServerModule}
use go_rsyncfs.Server.Handshake.{authenticate}
use go_rsyncfs.Client.Connect.{Client, respond, on_answer, pass_challenges, enter_module}

-- A module takes a client: it asks for nothing, or the client gives the digest that the module
-- expects of its user, whose name is not empty and has no space.
pub data Admits (c : Client) (m : ServerModule) (digest asked : Bytes) : Type 0 where
  open_to_all : m.auth_callback ≡ none → Admits c m digest asked
  with_digest :
      (callback : Bytes → Bytes → Option Bytes) (f : Bytes → Bytes → Option Bytes) (b : ℕ)
      (user answer : Bytes)
      → m.auth_callback ≡ some callback
      → c.auth_user ≡ b ∷ user
      → All (λ (x : ℕ). is_space x ≡ false) c.auth_user
      → c.auth_response ≡ some f
      → f digest asked ≡ some answer
      → callback c.auth_user asked ≡ some answer
      → Admits c m digest asked

-- What passes between the two sides.
pub record Entered (encode : Bytes → Bytes) (decode : Bytes → Option Bytes) (seed : ℕ) (c : Client)
    (m : ServerModule) (digest asked : Bytes) : Type 0 where
  pub to_client : Bytes
  pub to_server : Bytes
  pub server_side :
      (s : Bytes) → authenticate encode decode asked seed m (to_server ++ s) ≡ (to_client, ok tt s)
  pub client_side :
      (t : Bytes) → enter_module encode decode c digest (to_client ++ t) ≡ (to_server, ok tt t)

module _ (encode : Bytes → Bytes) (decode : Bytes → Option Bytes) (coding : IsCoding encode decode)
    (c : Client) (digest asked : Bytes) where
  pass_ok :
      (fuel : ℕ) (t : Bytes)
      → pass_challenges encode decode c (suc fuel) digest (write_auth_ok ++ t) ≡ ([], ok tt t)
  unfolding pass_challenges on_answer
  pass_ok fuel t =
      rw (pass_challenges, (read_auth_challenge-answers encode decode coding [] [] [] t tt tt).1)
        refl

  pass_challenge :
      (fuel : ℕ) (answer t : Bytes)
      → respond c digest asked ≡ ok answer []
      → pass_challenges encode decode c
          (suc (suc fuel))
          digest
          (write_auth_challenge encode decode asked ++ (write_auth_ok ++ t))
        ≡ (write_auth_response encode decode c.auth_user answer, ok tt t)
  unfolding pass_challenges on_answer
  pass_challenge fuel answer t e =
      rw
        (
          pass_challenges,
          (read_auth_challenge-answers encode decode coding [] asked [] (write_auth_ok ++ t) tt
              tt).0,
        )
        (rw (on_answer, e, pass_ok fuel t)
          (ap (λ (w : Bytes). (w, ok tt t))
            (append-nil (write_auth_response encode decode c.auth_user answer))))

  enter :
      (s : Bytes) (w : Bytes) (t : Bytes)
      → ((fuel : ℕ) → pass_challenges encode decode c (suc (suc fuel)) digest s ≡ (w, ok tt t))
      → 0 < length s
      → enter_module encode decode c digest s ≡ (w, ok tt t)
  unfolding enter_module
  enter s w t h pos =
      let e : length s ≡ suc (length s - 1) = omega arith in rw (enter_module, e) (h (length s - 1))

  -- Some text comes in each answer.
  ok_pos : (t : Bytes) → 0 < length (write_auth_ok ++ t)
  unfolding write_auth_ok
  ok_pos t = omega arith

  challenge_pos : (t : Bytes) → 0 < length (write_auth_challenge encode decode asked ++ t)
  unfolding write_auth_challenge
  challenge_pos t = omega arith

  responds :
      (f : Bytes → Bytes → Option Bytes) (b : ℕ) (user answer : Bytes)
      → c.auth_user ≡ b ∷ user
      → c.auth_response ≡ some f
      → f digest asked ≡ some answer
      → respond c digest asked ≡ ok answer []
  responds f b user answer u r e = rw (u, r, e) refl

  pub Admits-Entered :
      (m : ServerModule) (seed : ℕ)
      → Admits c m digest asked
      → Entered encode decode seed c m digest asked
  unfolding authenticate
  Admits-Entered m seed (open_to_all none_asked) = record {
    to_client = write_auth_ok;
    to_server = [];
    server_side = λ s. rw (authenticate, none_asked) refl;
    client_side = λ t. enter (write_auth_ok ++ t) [] t (λ fuel. pass_ok (suc fuel) t) (ok_pos t);
  }
  Admits-Entered m seed (with_digest callback f b user answer asks u words r e expects) = record {
    to_client = write_auth_challenge encode decode asked ++ write_auth_ok;
    to_server = write_auth_response encode decode c.auth_user answer;
    server_side = λ s.
        rw
          (
            authenticate,
            asks,
            read_auth_response-write_auth_response encode decode coding c.auth_user answer s words,
          )
          (rw (expects, hash_equal-bytes_equal answer answer, bytes_equal_same answer) refl);
    client_side = λ t.
        rw (append_assoc (write_auth_challenge encode decode asked) write_auth_ok t) (
          enter (write_auth_challenge encode decode asked ++ (write_auth_ok ++ t))
            (write_auth_response encode decode c.auth_user answer) t
            (λ fuel. pass_challenge fuel answer t (responds f b user answer u r e))
            (challenge_pos (write_auth_ok ++ t)));
  }
