-- ===== src/Handshake/Text/Decimal.antt =====
-- Atoi reads the numbers that %d prints.
use go_rsyncfs.Base.{
  ℕ, zero, suc, ◌+◌, ◌-◌, ◌*◌, ◌/◌, ◌%◌, ◌^◌, ◌<◌, ◌≤◌, ◌≡◌, ◌≢◌, refl, ap, ◌∙◌, true, false, [],
  ◌∷◌, ◌++◌, some, Bytes, ltb, ◌==◌, Bool-cases, inl, inr, arith, All, length, length-append,
  All-append,
}
use go_rsyncfs.Handshake.Text.{decimal_digits, decimal, digits_value, unsigned, atoi}

cons-ne-nil : (b : ℕ) (s : Bytes) → b ∷ s ≢ []
cons-ne-nil b s e = absurd (omega (arith, ap length e))

snoc-ne-nil : (s : Bytes) (b : ℕ) → s ++ (b ∷ []) ≢ []
snoc-ne-nil s b e = absurd (omega (arith, ap length e, length-append {0} s (b ∷ [])))

digits_value-append :
    (acc n : ℕ) (s t : Bytes)
    → digits_value acc s ≡ some n
    → digits_value acc (s ++ t) ≡ digits_value n t
unfolding digits_value
digits_value-append acc n [] t h = ground (arith)
digits_value-append acc n (b ∷ s) t h =
    ground (arith, digits_value-append (acc * 10 + (b - 48)) n s t)

digits_value-decimal_digits :
    (fuel n : ℕ) → n < fuel → digits_value 0 (decimal_digits fuel n) ≡ some n
unfolding digits_value decimal_digits
digits_value-decimal_digits zero n h = absurd (omega arith)
digits_value-decimal_digits (suc fuel) n h = elim (Bool-cases (ltb n 10)) [
  | inl small ↦ rw small (ground arith)
  | inr large ↦ rw large (
      digits_value-append 0 (n / 10) (decimal_digits fuel (n / 10)) _
        (digits_value-decimal_digits fuel (n / 10) (ground arith))
      ∙ ground arith)
]

-- A digit.
abbrev pub IsDigit : ℕ → Type 0
IsDigit b = (48 ≤ b) × (b ≤ 57)

decimal_digits-All :
    (fuel n : ℕ) → n < fuel → (decimal_digits fuel n ≢ []) × All IsDigit (decimal_digits fuel n)
unfolding decimal_digits
decimal_digits-All zero n h = absurd (omega arith)
decimal_digits-All (suc fuel) n h = elim (Bool-cases (ltb n 10)) [
  | inl small ↦ rw small (cons-ne-nil (48 + n) [], ((omega arith, ground arith), tt))
  | inr large ↦ rw large (
    snoc-ne-nil (decimal_digits fuel (n / 10)) (48 + n % 10),
    All-append IsDigit (decimal_digits fuel (n / 10)) ((48 + n % 10) ∷ [])
        (decimal_digits-All fuel (n / 10) (ground arith)).1 ((omega arith, omega arith), tt),
  )
]

pub decimal-All : (n : ℕ) → (decimal n ≢ []) × All IsDigit (decimal n)
unfolding decimal
decimal-All n = decimal_digits-All (suc n) n (omega arith)

atoi-digits :
    (s : Bytes) (n : ℕ)
    → s ≢ []
    → All IsDigit s
    → digits_value 0 s ≡ some n
    → n < 2 ^ 63
    → atoi s ≡ some n
unfolding atoi unsigned
atoi-digits [] n ne all e h = absurd (ne refl)
atoi-digits (b ∷ s) n ne all e h =
    let not_minus : (b == b'-') ≡ false = ground (arith, all.0) in
    let not_plus : (b == b'+') ≡ false = ground (arith, all.0) in
    let small : ltb n (2 ^ 63) ≡ true = ground arith in rw (not_minus, not_plus, e, small) refl

-- Atoi reads back the number that %d printed.
pub atoi-decimal : (n : ℕ) → n < 2 ^ 63 → atoi (decimal n) ≡ some n
unfolding decimal
atoi-decimal n h =
    let (ne, all) = decimal_digits-All (suc n) n (omega arith) in
    atoi-digits (decimal_digits (suc n) n) n ne all
      (digits_value-decimal_digits (suc n) n (omega arith)) h

pub digit_is_decimal : (n : ℕ) → n < 10 → decimal n ≡ (48 + n) ∷ []
unfolding decimal decimal_digits
digit_is_decimal n h = let small : ltb n 10 ≡ true = ground arith in rw small refl
