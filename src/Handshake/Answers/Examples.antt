-- ===== src/Handshake/Answers/Examples.antt =====
-- An encoding that moves each byte behind the spaces, and a client that is asked for a digest.
use go_rsyncfs.Base.{
  ℕ, ◌+◌, ◌-◌, ◌≡◌, refl, ap, false, [], ◌∷◌, ◌++◌, Option, some, Bytes, All, arith,
}
use mathlib.Core.Path.{ap₂}
use go_rsyncfs.Io.{ok, err, server_error}
use go_rsyncfs.Handshake.{is_space}
use go_rsyncfs.Handshake.Text.{cut_prefix}
use go_rsyncfs.Handshake.Answers.{
  granted, challenge, parse_error, has_prefix, write_error, write_auth_ok, write_auth_challenge,
  read_auth_challenge,
}
use go_rsyncfs.Handshake.Answers.Passes.{IsCoding, IsMotd, lines_text, read_auth_challenge-answers}

unfoldable pub moved : Bytes → Bytes
moved [] = []
moved (b ∷ s) = (b + 33) ∷ moved s

unfoldable pub moved_back : Bytes → Bytes
moved_back [] = []
moved_back (b ∷ s) = (b - 33) ∷ moved_back s

abbrev pub decode_moved : Bytes → Option Bytes
decode_moved s = some (moved_back s)

moved_back-moved : (s : Bytes) → moved_back (moved s) ≡ s
unfolding moved moved_back
moved_back-moved [] = refl
moved_back-moved (b ∷ s) = ap₂ (λ (h : ℕ) (t : Bytes). h ∷ t) (omega arith) (moved_back-moved s)

moved_words : (s : Bytes) → All (λ (b : ℕ). is_space b ≡ false) (moved s)
unfolding moved is_space
moved_words [] = tt
moved_words (b ∷ s) = (ground arith, moved_words s)

pub moved-IsCoding : IsCoding moved decode_moved
moved-IsCoding = record {
  inverse = λ s. ap (λ (t : Bytes). some t) (moved_back-moved s);
  no_space = moved_words;
}

-- "hi"
abbrev hello : Bytes
hello = b'h' ∷ b'i' ∷ []

hello-IsMotd : IsMotd hello
unfolding parse_error has_prefix cut_prefix
hello-IsMotd = record {
  is_line = (refl, (refl, tt));
  no_error = refl;
  no_ok = refl;
  no_exit = refl;
  no_auth = refl;
}

read_auth_challenge-answers_example :
    (read_auth_challenge moved decode_moved (
        lines_text (hello ∷ [])
        ++ (write_auth_challenge moved decode_moved (1 ∷ 2 ∷ []) ++ (9 ∷ [])))
      ≡ ok (challenge (1 ∷ 2 ∷ [])) (9 ∷ []))
    × (read_auth_challenge moved decode_moved
          (lines_text (hello ∷ []) ++ (write_auth_ok ++ (9 ∷ [])))
        ≡ ok granted (9 ∷ []))
    × (read_auth_challenge moved decode_moved
          (lines_text (hello ∷ []) ++ (write_error hello ++ (9 ∷ [])))
        ≡ err (server_error hello) (9 ∷ []))
read_auth_challenge-answers_example =
    read_auth_challenge-answers moved decode_moved moved-IsCoding (hello ∷ []) (1 ∷ 2 ∷ []) hello
      (9 ∷ []) (hello-IsMotd, tt) (refl, (refl, tt))
