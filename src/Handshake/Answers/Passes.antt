-- ===== src/Handshake/Answers/Passes.antt =====
-- The client and the server pass the answer to the module request, and the response to a challenge.
use go_rsyncfs.Base.{
  ℕ, zero, suc, ◌<◌, ◌≤◌, ◌≡◌, refl, ◌∙◌, false, List, [], ◌∷◌, ◌++◌, append_assoc, Option, none,
  some, Bytes, length, length-append, ◌==◌, All, All-append, arith,
}
use go_rsyncfs.Io.{Reader, ok, err, server_error}
use go_rsyncfs.Handshake.{read_line, is_space}
use go_rsyncfs.Handshake.Lines.{read_line_from-append}
use go_rsyncfs.Handshake.Greetings.{no_space-no_newline}
use go_rsyncfs.Handshake.Text.{cut_prefix}
use go_rsyncfs.Handshake.Text.Cuts.{cut-append, trim_space_words}
use go_rsyncfs.Handshake.Answers.{
  error_text, ok_text, exit_text, auth_text, parse_error, write_error, write_auth_ok, has_prefix,
  Answer, granted, challenge, write_auth_challenge, decoded, on_line, read_answer,
  read_auth_challenge, write_auth_response, split_response, read_auth_response,
}

-- The documented behaviour of encoding/base64: a text decodes to what it encodes, and has no space.
pub record IsCoding (encode : Bytes → Bytes) (decode : Bytes → Option Bytes) : Type 0 where
  pub inverse : (s : Bytes) → decode (encode s) ≡ some s
  pub no_space : (s : Bytes) → All (λ (b : ℕ). is_space b ≡ false) (encode s)

abbrev pub IsLine : Bytes → Type 0
IsLine s = All (λ (b : ℕ). b == b'\n' ≡ false) s

-- A line of a greeting text, which is none of the answers.
pub record IsMotd (line : Bytes) : Type 0 where
  pub is_line : IsLine line
  pub no_error : parse_error line ≡ none
  pub no_ok : has_prefix ok_text line ≡ false
  pub no_exit : has_prefix exit_text line ≡ false
  pub no_auth : cut_prefix auth_text line ≡ none

abbrev pub lines_text : List Bytes → Bytes
lines_text [] = []
lines_text (line ∷ lines) = line ++ (b'\n' ∷ lines_text lines)

read_one_line :
    (line rest : Bytes) → IsLine line → read_line (line ++ (b'\n' ∷ rest)) ≡ ok line rest
unfolding read_line
read_one_line line rest h = read_line_from-append [] line rest h

length-lines_text-le : (lines : List Bytes) → length lines ≤ length (lines_text lines)
length-lines_text-le [] = omega arith
length-lines_text-le (line ∷ lines) =
    omega (arith, length-append {0} line (b'\n' ∷ lines_text lines), length-lines_text-le lines)

no_blank :
    (s : Bytes) → All (λ (b : ℕ). is_space b ≡ false) s → All (λ (b : ℕ). b == b' ' ≡ false) s
unfolding is_space
no_blank [] h = tt
no_blank (b ∷ s) h = (ground (arith, h.0), no_blank s h.1)

one_text :
    (s t rest : Bytes)
    → (s ++ (b' ' ∷ (t ++ (b'\n' ∷ [])))) ++ rest ≡ (s ++ (b' ' ∷ t)) ++ (b'\n' ∷ rest)
one_text s t rest = simp append_assoc refl

module _ (encode : Bytes → Bytes) (decode : Bytes → Option Bytes) where
  on_line-skips :
      (line : Bytes) (next : Reader Answer) (s : Bytes)
      → IsMotd line
      → on_line encode decode line next s ≡ next s
  unfolding on_line
  on_line-skips line next s h = rw (on_line, h.no_error, h.no_ok, h.no_exit, h.no_auth) refl

  read_answer-skips :
      (fuel : ℕ) (motd : List Bytes) (s : Bytes)
      → All IsMotd motd
      → length motd < fuel
      → (left : ℕ) × (read_answer encode decode fuel (lines_text motd ++ s)
          ≡ read_answer encode decode (suc left) s)
  unfolding read_answer
  read_answer-skips zero motd s h lt = absurd (omega arith)
  read_answer-skips (suc fuel) [] s h lt = (fuel, refl)
  read_answer-skips (suc fuel) (line ∷ motd) s h lt =
      let (left, e) = read_answer-skips fuel motd s h.1 (omega arith) in
      (
        left,
        rw
            (
              append_assoc line (b'\n' ∷ lines_text motd) s,
              read_answer,
              read_one_line line (lines_text motd ++ s) h.0.is_line,
            )
            (on_line-skips line (read_answer encode decode fuel) (lines_text motd ++ s) h.0 ∙ e),
      )

  read_auth_challenge-skips :
      (motd : List Bytes) (s : Bytes)
      → All IsMotd motd
      → (left : ℕ) × (read_auth_challenge encode decode (lines_text motd ++ s)
          ≡ read_answer encode decode (suc left) s)
  unfolding read_auth_challenge
  read_auth_challenge-skips motd s h =
      read_answer-skips (suc (length (lines_text motd ++ s))) motd s h
        (omega (arith, length-append {0} (lines_text motd) s, length-lines_text-le motd))

  answer_ok :
      (fuel : ℕ) (rest : Bytes)
      → read_answer encode decode (suc fuel) (write_auth_ok ++ rest) ≡ ok granted rest
  unfolding read_answer on_line write_auth_ok parse_error has_prefix cut_prefix
  answer_ok fuel rest =
      rw
        (
          read_answer,
          read_one_line ok_text rest (
            refl,
            (refl, (refl, (refl, (refl, (refl, (refl, (refl, (refl, (refl, (refl, tt)))))))))),
          ),
        )
        refl

  module _ (coding : IsCoding encode decode) where
    answer_challenge :
        (fuel : ℕ) (c rest : Bytes)
        → read_answer encode decode (suc fuel) (write_auth_challenge encode decode c ++ rest)
          ≡ ok (challenge c) rest
    unfolding read_answer on_line write_auth_challenge parse_error has_prefix cut_prefix decoded
    answer_challenge fuel c rest =
        let line : IsLine (auth_text ++ encode c) = (
          refl,
          (
            refl,
            (
              refl,
              (
                refl,
                (
                  refl,
                  (
                    refl,
                    (
                      refl,
                      (
                        refl,
                        (
                          refl,
                          (
                            refl,
                            (
                              refl,
                              (
                                refl,
                                (
                                  refl,
                                  (
                                    refl,
                                    (
                                      refl,
                                      (
                                        refl,
                                        (
                                          refl,
                                          (
                                            refl,
                                            no_space-no_newline (encode c) (coding.no_space c),
                                          ),
                                        ),
                                      ),
                                    ),
                                  ),
                                ),
                              ),
                            ),
                          ),
                        ),
                      ),
                    ),
                  ),
                ),
              ),
            ),
          ),
        ) in
        rw
          (
            append_assoc (auth_text ++ encode c) (b'\n' ∷ []) rest,
            read_answer,
            read_one_line (auth_text ++ encode c) rest line,
          )
          (rw (decoded, trim_space_words (encode c) (coding.no_space c), coding.inverse c) refl)

    answer_error :
        (fuel : ℕ) (msg rest : Bytes)
        → IsLine msg
        → read_answer encode decode (suc fuel) (write_error msg ++ rest)
          ≡ err (server_error msg) rest
    unfolding read_answer on_line write_error parse_error cut_prefix
    answer_error fuel msg rest h =
        let line : IsLine (error_text ++ msg) =
          (refl, (refl, (refl, (refl, (refl, (refl, (refl, (refl, h)))))))) in
        rw
          (
            append_assoc (error_text ++ msg) (b'\n' ∷ []) rest,
            read_answer,
            read_one_line (error_text ++ msg) rest line,
          )
          refl

    -- Behind any lines of a greeting text, none of which is an answer, ReadAuthChallenge returns
    -- the challenge that WriteAuthChallenge wrote, no challenge for WriteAuthOK, and the message of
    -- WriteError, of one line, as an error; it leaves what follows.
    pub read_auth_challenge-answers :
        (motd : List Bytes) (c msg rest : Bytes)
        → All IsMotd motd
        → IsLine msg
        → (read_auth_challenge encode decode
              (lines_text motd ++ (write_auth_challenge encode decode c ++ rest))
            ≡ ok (challenge c) rest)
          × (read_auth_challenge encode decode (lines_text motd ++ (write_auth_ok ++ rest))
              ≡ ok granted rest)
          × (read_auth_challenge encode decode (lines_text motd ++ (write_error msg ++ rest))
              ≡ err (server_error msg) rest)
    read_auth_challenge-answers motd c msg rest h one_line =
        let (i, e) =
          read_auth_challenge-skips motd (write_auth_challenge encode decode c ++ rest) h in
        let (j, f) = read_auth_challenge-skips motd (write_auth_ok ++ rest) h in
        let (k, g) = read_auth_challenge-skips motd (write_error msg ++ rest) h in
        (e ∙ answer_challenge i c rest, f ∙ answer_ok j rest, g ∙ answer_error k msg rest one_line)

    -- ReadAuthResponse returns the user and the digest that WriteAuthResponse wrote, for a user
    -- without a space or a newline, and leaves what follows.
    pub read_auth_response-write_auth_response :
        (username digest rest : Bytes)
        → All (λ (b : ℕ). is_space b ≡ false) username
        → read_auth_response encode decode
            (write_auth_response encode decode username digest ++ rest)
          ≡ ok (username, digest) rest
    unfolding read_auth_response write_auth_response split_response decoded
    read_auth_response-write_auth_response username digest rest h =
        let line : IsLine (username ++ (b' ' ∷ encode digest)) =
          All-append (λ (b : ℕ). b == b'\n' ≡ false) username (b' ' ∷ encode digest)
            (no_space-no_newline username h)
            (refl, no_space-no_newline (encode digest) (coding.no_space digest)) in
        rw (one_text username (encode digest) rest) (
          rw (read_one_line (username ++ (b' ' ∷ encode digest)) rest line) (
            rw (cut-append b' ' username (encode digest) (no_blank username h))
              (rw (decoded, coding.inverse digest) refl)))
