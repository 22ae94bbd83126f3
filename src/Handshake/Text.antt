-- ===== src/Handshake/Text.antt =====
-- The text functions of Go that the handshake uses, on bytes: fmt's %d, strconv.Atoi,
-- strings.CutPrefix, strings.Cut and strings.TrimSpace over ASCII spaces.
pub mod Decimal
pub mod Cuts
use go_rsyncfs.Base.{
  ℕ, zero, suc, ◌+◌, ◌-◌, ◌*◌, ◌/◌, ◌%◌, ◌^◌, ◌<◌, ◌≤◌, ◌≡◌, ◌≢◌, refl, sym, ap, ◌∙◌, Bool, true,
  false, ◌&&◌, not, [], ◌∷◌, ◌++◌, Option, none, some, Bytes, ltb, leb, ◌==◌, if◌then◌else◌,
  Bool-cases, inl, inr, arith, All, length, append_assoc, append-nil,
}
use go_rsyncfs.Handshake.{is_space}

unfoldable pub decimal_digits : ℕ → ℕ → Bytes
decimal_digits zero n = []
decimal_digits (suc fuel) n =
    let high = decimal_digits fuel (n / 10) in
    if ltb n 10 then (48 + n) ∷ [] else high ++ ((48 + n % 10) ∷ [])

-- A number is as many digits at most.
unfoldable pub decimal : ℕ → Bytes
decimal n = decimal_digits (suc n) n

unfoldable pub digits_value : ℕ → Bytes → Option ℕ
digits_value acc [] = some acc
digits_value acc (b ∷ s) =
    let later = digits_value (acc * 10 + (b - 48)) s in if leb 48 b && leb b 57 then later else none

-- A number below a limit.
abbrev pub below : ℕ → Option ℕ → Option ℕ
below limit none = none
below limit (some n) = if ltb n limit then some n else none

unfoldable pub unsigned : ℕ → Bytes → Option ℕ
unsigned limit [] = none
unsigned limit (b ∷ s) = below limit (digits_value 0 (b ∷ s))

abbrev pub or_zero : Option ℕ → Option ℕ
or_zero none = none
or_zero (some n) = some 0

-- strconv.Atoi into 64 bits, with 0 for a negative number.
unfoldable pub atoi : Bytes → Option ℕ
unfolding unsigned
atoi [] = none
atoi (b ∷ s) =
    if b == b'-'
    then or_zero (unsigned (2 ^ 63 + 1) s)
    else if b == b'+'
    then unsigned (2 ^ 63) s
    else unsigned (2 ^ 63) (b ∷ s)

unfoldable pub cut_prefix : Bytes → Bytes → Option Bytes
cut_prefix [] s = some s
cut_prefix (p ∷ prefix) [] = none
cut_prefix (p ∷ prefix) (b ∷ s) = let later = cut_prefix prefix s in if p == b then later else none

-- What stands before the first `c`, and what stands behind it if there is one.
unfoldable pub cut : ℕ → Bytes → Bytes × Option Bytes
cut c [] = ([], none)
cut c (b ∷ s) = let later = cut c s in if b == c then ([], some s) else (b ∷ later.0, later.1)

unfoldable pub trim_left : Bytes → Bytes
trim_left [] = []
trim_left (b ∷ s) = let later = trim_left s in if is_space b then later else b ∷ s

abbrev pub keep_right : ℕ → Bytes → Bytes
keep_right b [] = if is_space b then [] else b ∷ []
keep_right b (c ∷ s) = b ∷ c ∷ s

unfoldable pub trim_right : Bytes → Bytes
trim_right [] = []
trim_right (b ∷ s) = keep_right b (trim_right s)

unfoldable pub trim_space : Bytes → Bytes
trim_space s = trim_right (trim_left s)
