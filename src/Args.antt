-- ===== src/Args.antt =====
-- protocol/args.go: the argument list of a connection, and the feature letters that it carries.
-- Go ranges over the runes of a string; here it is over the bytes, since each letter that is
-- looked for is one ASCII byte, which is no part of another rune.
pub mod RoundTrip
pub mod Flags
mod Examples
use go_rsyncfs.Base.{
  ℕ, ◌+◌, ◌*◌, ◌^◌, bit_and, bit_or, Bool, true, false, not, ◌&&◌, ◌||◌, List, [], ◌∷◌, ◌++◌, Bytes,
  Option, none, some, length, leb, ltb, ◌==◌, if◌then◌else◌,
}
use go_rsyncfs.Io.{Reader, ok, err, eof, Output, wrote, ◌>>>◌}

-- '\n' below protocol 30, NUL from there on.
unfoldable pub delimiter : ℕ → ℕ
delimiter version = if leb 30 version then 0 else b'\n'

abbrev is_empty : Bytes → Bool
is_empty [] = true
is_empty (b ∷ s) = false

-- The loop of readDelimitedArgs over the bytes to come; `current` is the argument so far.
pub read_delimited : ℕ → List Bytes → Bytes → Reader (List Bytes)
read_delimited delim args current [] = err eof []
read_delimited delim args current (b ∷ s) =
    let next = read_delimited delim (args ++ (current ∷ [])) [] s in
    let more = read_delimited delim args (current ++ (b ∷ [])) s in
    if b == delim then (if is_empty current then ok args s else next) else more

pub read_args : ℕ → Reader (List Bytes)
read_args version = read_delimited (delimiter version) [] []

write_each : ℕ → List Bytes → Output
write_each delim [] = wrote []
write_each delim (arg ∷ args) = wrote arg >>> wrote (delim ∷ []) >>> write_each delim args

-- The list ends with a second delimiter; with no argument both are written here.
abbrev first_end : ℕ → List Bytes → Output
first_end delim [] = wrote (delim ∷ [])
first_end delim (arg ∷ args) = wrote []

pub write_args : List Bytes → ℕ → Output
write_args args version =
    write_each (delimiter version) args
    >>> first_end (delimiter version) args
    >>> wrote (delimiter version ∷ [])

-- `strings.HasPrefix(arg, "-")` and not `strings.HasPrefix(arg, "--")`
unfoldable pub is_short_option : Bytes → Bool
is_short_option [] = false
is_short_option (a ∷ []) = a == b'-'
is_short_option (a ∷ b ∷ s) = a == b'-' && not (b == b'-')

-- What stands behind the first `c`, if there is one.
unfoldable pub after_byte : ℕ → Bytes → Option Bytes
after_byte c [] = none
after_byte c (b ∷ s) = let rest = after_byte c s in if b == c then some s else rest

unfoldable pub extract_client_info : List Bytes → Bytes
extract_client_info [] = []
extract_client_info (arg ∷ args) =
    let others = extract_client_info args in
    if not (is_short_option arg) then others else elim (after_byte b'e' arg) [
      | none ↦ others
      | some info ↦ if is_empty info then others else info
    ]

pub record PreserveFlags : Type 0 where
  pub uid : Bool
  pub gid : Bool
  pub hlinks : Bool

preserve_byte : PreserveFlags → ℕ → PreserveFlags
preserve_byte p ch =
    if ch == b'o'
    then record p { uid = true }
    else if ch == b'g'
    then record p { gid = true }
    else if ch == b'H'
    then record p { hlinks = true }
    else p

preserve_bytes : PreserveFlags → Bytes → PreserveFlags
preserve_bytes p [] = p
preserve_bytes p (ch ∷ s) = preserve_bytes (preserve_byte p ch) s

preserve_args : PreserveFlags → List Bytes → PreserveFlags
preserve_args p [] = p
preserve_args p (arg ∷ args) =
    preserve_args (if not (is_short_option arg) then p else preserve_bytes p arg) args

pub extract_preserve_flags : List Bytes → PreserveFlags
unfolding preserve_args
extract_preserve_flags = preserve_args (record { uid = false; gid = false; hlinks = false })

-- The bit that a feature letter stands for, counted from 0.
unfoldable pub compat_bit : ℕ → Option ℕ
compat_bit ch =
    if ch == b'i'
    then some 0
    else if ch == b'L'
    then some 1
    else if ch == b's'
    then some 2
    else if ch == b'f'
    then some 3
    else if ch == b'x'
    then some 4
    else if ch == b'C'
    then some 5
    else if ch == b'I'
    then some 6
    else if ch == b'v'
    then some 7
    else if ch == b'u'
    then some 8
    else none

unfoldable pub add_flag : ℕ → ℕ → Option ℕ → ℕ
add_flag caps flags none = flags
add_flag caps flags (some k) =
    if not (bit_and caps (2 ^ k) == 0) then bit_or flags (2 ^ k) else flags

unfoldable pub resolve_from : ℕ → ℕ → Bytes → ℕ
unfolding add_flag compat_bit
resolve_from caps flags [] = flags
resolve_from caps flags (ch ∷ s) = resolve_from caps (add_flag caps flags (compat_bit ch)) s

unfoldable pub resolve_compat_flags : ℕ → Bytes → ℕ
unfolding resolve_from
resolve_compat_flags caps info = resolve_from caps 0 info
