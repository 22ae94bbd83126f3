-- ===== src/Handshake/Greetings.antt =====
-- The greeting line: ParseGreeting and String of protocol/greet.go, ReadGreeting and WriteGreeting of
-- protocol/handshake.go. A negative version is kept as 0, which Negotiate refuses as well.
use go_rsyncfs.Base.{
  ℕ, ◌-◌, ◌^◌, ◌<◌, ◌≡◌, refl, ap, false, ◌&&◌, List, [], ◌∷◌, ◌++◌, append_assoc, append-nil,
  Option, none, some, Bytes, All, All-append, length-append, leb, ◌==◌, if◌then◌else◌, arith,
  length,
}
use go_rsyncfs.Io.{Reader, ◌>>=◌, return, fail, ok, invalid_greeting}
use go_rsyncfs.Greet.{Greeting}
use go_rsyncfs.Handshake.{read_line, join, fields, fields_from, is_space}
use go_rsyncfs.Handshake.Lines.{read_line_from-append}
use go_rsyncfs.Handshake.Algorithms.{IsName, fields-join}
use go_rsyncfs.Handshake.Text.{decimal, atoi, cut_prefix, cut, trim_space}
use go_rsyncfs.Handshake.Text.Decimal.{IsDigit, decimal-All, atoi-decimal, digit_is_decimal}
use go_rsyncfs.Handshake.Text.Cuts.{
  cut_prefix-append, cut-append, trim_space-EndsInWord, append-EndsInWord, join-EndsInWord,
}

-- "@RSYNCD:"
abbrev pub rsyncd : Bytes
rsyncd = b'@' ∷ b'R' ∷ b'S' ∷ b'Y' ∷ b'N' ∷ b'C' ∷ b'D' ∷ b':' ∷ []

-- The version and the subprotocol.
unfoldable pub version_text : Greeting → Bytes
version_text g = decimal g.version ++ (b'.' ∷ decimal g.sub_protocol)

abbrev pub digests_text : List Bytes → Bytes
digests_text [] = []
digests_text (d ∷ digests) = b' ' ∷ join (d ∷ digests)

-- String, and what WriteGreeting writes.
unfoldable pub write_greeting : Greeting → Bytes
write_greeting g = rsyncd ++ (b' ' ∷ (version_text g ++ (digests_text g.digests ++ (b'\n' ∷ []))))

-- The subprotocol behind the point, if there is one.
unfoldable pub parse_sub_protocol : ℕ → Option Bytes → Option ℕ
parse_sub_protocol version none = if leb 30 version then none else some 0
parse_sub_protocol version (some []) = none
parse_sub_protocol version (some (b ∷ [])) =
    if leb b'0' b && leb b b'9' then some (b - b'0') else none
parse_sub_protocol version (some (b ∷ c ∷ s)) = none

unfoldable pub parse_parts : List Bytes → Option Greeting
parse_parts [] = none
parse_parts (v ∷ digests) = elim (atoi (cut b'.' v).0) [
  | none ↦ none
  | some version ↦ elim (parse_sub_protocol version (cut b'.' v).1) [
    | none ↦ none
    | some sub ↦ some (record { version = version; sub_protocol = sub; digests = digests })
  ]
]

unfoldable pub parse_greeting : Bytes → Option Greeting
parse_greeting line = elim (cut_prefix rsyncd (trim_space line)) [
  | none ↦ none
  | some s ↦ parse_parts (fields s)
]

abbrev pub or_invalid : Option Greeting → Reader Greeting
or_invalid none = fail invalid_greeting
or_invalid (some g) = return g

unfoldable pub read_greeting : Reader Greeting
read_greeting = do line ← read_line; or_invalid (parse_greeting line)

-- A greeting that its text can carry: the subprotocol is one digit, and the digests are names.
pub record IsGreeting (g : Greeting) : Type 0 where
  pub version_fits : g.version < 2 ^ 63
  pub one_digit : g.sub_protocol < 10
  pub named : All IsName g.digests

-- A digit is neither a space nor a point nor the end of a line.
digit-no_space : (b : ℕ) → IsDigit b → is_space b ≡ false
unfolding is_space
digit-no_space b h = ground arith

digits-no_space : (s : Bytes) → All IsDigit s → All (λ (b : ℕ). is_space b ≡ false) s
digits-no_space [] h = tt
digits-no_space (b ∷ s) h = (digit-no_space b h.0, digits-no_space s h.1)

digits-no_point : (s : Bytes) → All IsDigit s → All (λ (b : ℕ). b == b'.' ≡ false) s
digits-no_point [] h = tt
digits-no_point (b ∷ s) h = (ground (arith, h.0), digits-no_point s h.1)

pub no_space-no_newline :
    (s : Bytes) → All (λ (b : ℕ). is_space b ≡ false) s → All (λ (b : ℕ). b == b'\n' ≡ false) s
unfolding is_space
no_space-no_newline [] h = tt
no_space-no_newline (b ∷ s) h = (ground (arith, h.0), no_space-no_newline s h.1)

body_of_names : (v : Bytes) (digests : List Bytes) → v ++ digests_text digests ≡ join (v ∷ digests)
unfolding join
body_of_names v [] = append-nil v
body_of_names v (d ∷ digests) = refl

join-no_newline :
    (d : Bytes) (names : List Bytes)
    → All IsName (d ∷ names)
    → All (λ (b : ℕ). b == b'\n' ≡ false) (join (d ∷ names))
unfolding join
join-no_newline d [] h = no_space-no_newline d h.0.1
join-no_newline d (e ∷ names) h =
    All-append (λ (b : ℕ). b == b'\n' ≡ false) d (b' ' ∷ join (e ∷ names))
      (no_space-no_newline d h.0.1) (refl, join-no_newline e names h.1)

module _ (g : Greeting) (fine : IsGreeting g) where
  version_text-IsName : IsName (version_text g)
  unfolding version_text is_space
  version_text-IsName = (
    λ e. absurd (
        omega (
          arith,
          ap length e,
          length-append {0} (decimal g.version) (b'.' ∷ decimal g.sub_protocol),
        )),
    All-append (λ (b : ℕ). is_space b ≡ false) (decimal g.version) (b'.' ∷ decimal g.sub_protocol)
        (digits-no_space (decimal g.version) (decimal-All g.version).1)
        (refl, digits-no_space (decimal g.sub_protocol) (decimal-All g.sub_protocol).1),
  )

  abbrev names : List Bytes
  names = version_text g ∷ g.digests

  cut-version : cut b'.' (version_text g) ≡ (decimal g.version, some (decimal g.sub_protocol))
  unfolding version_text
  cut-version =
      cut-append b'.' (decimal g.version) (decimal g.sub_protocol)
        (digits-no_point (decimal g.version) (decimal-All g.version).1)

  parse_sub : parse_sub_protocol g.version (some (decimal g.sub_protocol)) ≡ some g.sub_protocol
  unfolding parse_sub_protocol
  parse_sub = rw (digit_is_decimal g.sub_protocol fine.one_digit) (ground (arith, fine.one_digit))

  parse_parts-written : parse_parts (version_text g ∷ g.digests) ≡ some g
  unfolding parse_parts
  parse_parts-written =
      rw
        (parse_parts, cut-version, atoi-decimal g.version fine.version_fits, cut-version, parse_sub)
        refl

  abbrev line : Bytes
  line = rsyncd ++ (b' ' ∷ join names)

  names-IsName : All IsName names
  names-IsName = (version_text-IsName, fine.named)

  parse_line : parse_greeting line ≡ some g
  unfolding parse_greeting fields fields_from is_space
  parse_line =
      let trimmed : trim_space line ≡ line = trim_space-EndsInWord b'@' _ refl (
        append-EndsInWord rsyncd (b' ' ∷ join names) (
          append-EndsInWord (b' ' ∷ []) (join names)
            (join-EndsInWord (version_text g) g.digests names-IsName))) in
      rw
        (
          parse_greeting,
          trimmed,
          cut_prefix-append rsyncd (b' ' ∷ join names),
          fields-join names names-IsName,
        )
        parse_parts-written

  one_line : (rest : Bytes) → write_greeting g ++ rest ≡ line ++ (b'\n' ∷ rest)
  unfolding write_greeting
  one_line rest = rw (← body_of_names (version_text g) g.digests) (simp append_assoc refl)

  no_newline : All (λ (b : ℕ). b == b'\n' ≡ false) line
  no_newline =
      All-append (λ (b : ℕ). b == b'\n' ≡ false) rsyncd (b' ' ∷ join names)
        (refl, (refl, (refl, (refl, (refl, (refl, (refl, (refl, tt))))))))
        (refl, join-no_newline (version_text g) g.digests names-IsName)

  -- ReadGreeting returns the greeting that WriteGreeting wrote, for every version that an int holds,
  -- a subprotocol of one digit and digests that are names, and leaves what follows.
  pub read_greeting-write_greeting :
      (rest : Bytes) → read_greeting (write_greeting g ++ rest) ≡ ok g rest
  unfolding read_greeting read_line
  read_greeting-write_greeting rest =
      rw (one_line rest, read_line_from-append [] line rest no_newline, parse_line) refl
