-- ===== src/Io/Laws.antt =====
-- Laws of the readers of Io: `read_full` takes its bytes from the front, or ends the stream.
use go_rsyncfs.Base.{
  ℕ, zero, suc, ◌<◌, ◌≡◌, refl, ap, ◌+◌, length-append, [], ◌∷◌, ◌++◌, ◌⊎◌, inl, inr, Option, none,
  some, Bytes, length, arith,
}
use go_rsyncfs.Io.{
  Result, Reader, bind, eof, unexpected_eof, ok, err, split_at, read_full, short_read,
}

pub split_at-append : (p r : Bytes) → split_at (length p) (p ++ r) ≡ some (p, r)
unfolding split_at
split_at-append [] r = refl
split_at-append (b ∷ p) r = rw (split_at-append p r)

pub read_full-append : (n : ℕ) (p r : Bytes) → length p ≡ n → read_full n (p ++ r) ≡ ok p r
unfolding read_full
read_full-append n p r h = rw (← h) (rw (split_at-append p r, read_full))

pub split_at-shape :
    (n : ℕ) (s p r : Bytes) → split_at n s ≡ some (p, r) → (length p ≡ n) × (s ≡ p ++ r)
unfolding split_at
split_at-shape zero s p r h = ground arith
split_at-shape (suc n) [] p r h = cc
split_at-shape (suc n) (b ∷ s) p r h = elim (split_cases (split_at n s)) [
  | inl e ↦ ground arith
  | inr (q, t, e) ↦ ground (arith, split_at-shape n s q t e)
]
  where
    split_cases :
        (o : Option (Bytes × Bytes)) → (o ≡ none) ⊎ ((q : Bytes) × (t : Bytes) × (o ≡ some (q, t)))
    split_cases none = inl refl
    split_cases (some (q, t)) = inr (q, t, refl)

split_at-none : (n : ℕ) (s : Bytes) → length s < n → split_at n s ≡ none
unfolding split_at
split_at-none zero s h = absurd (omega arith)
split_at-none (suc n) [] h = refl
split_at-none (suc n) (b ∷ s) h = rw (split_at-none n s (omega arith))

pub read_full-shape :
    (n : ℕ) (s p r : Bytes) → read_full n s ≡ ok p r → (length p ≡ n) × (s ≡ p ++ r)
unfolding read_full
read_full-shape n s p r h = split_at-shape n s p r (ground arith)

pub read_full_short : (n : ℕ) (s : Bytes) → length s < n → read_full n s ≡ err (short_read s) []
unfolding read_full
read_full_short n s h = rw (split_at-none n s h, read_full)

pub read_full_cases :
    (n : ℕ) (s : Bytes)
    → ((p : Bytes) × (r : Bytes) × (read_full n s ≡ ok p r))
      ⊎ (read_full n s ≡ err (short_read s) [])
unfolding read_full
read_full_cases n s = pair_cases (split_at n s)
  where
    pair_cases :
        (o : Option (Bytes × Bytes))
        → ((p : Bytes) × (r : Bytes) × (elim o [
          | some (p, r) ↦ ok p r
          | none ↦ err (short_read s) []
        ]
              ≡ ok p r))
          ⊎ (elim o [ some (p, r) ↦ ok p r | none ↦ err (short_read s) [] ] ≡ err (short_read s) [])
    pair_cases none = inr refl
    pair_cases (some (p, r)) = inl (p, r, refl)

pub short_read_cases : (s : Bytes) → (short_read s ≡ eof) ⊎ (short_read s ≡ unexpected_eof)
short_read_cases [] = inl refl
short_read_cases (b ∷ s) = inr refl

pub read_full_takes : (n : ℕ) (s p t : Bytes) → read_full n s ≡ ok p t → length t + n ≡ length s
read_full_takes n s p t e =
    let (len, split) = read_full-shape n s p t e in
    omega (arith, len, ap length split, length-append {0} p t)

-- What holds of the value that a reader returns.
abbrev pub Yields {ℓ κ} : {A : Type ℓ} → (A → Type κ) → Result A → Type κ
Yields P (ok a s) = P a
Yields P (err e s) = Unit {κ}

pub bind-Yields {ℓ κ λ' μ} :
    {A : Type ℓ} {B : Type κ}
    → (P : B → Type μ) (Q : A → Type λ') (o : Result A) (f : A → Reader B) → Yields Q o
    → ((a : A) (s : Bytes) → Q a → Yields P (f a s))
    → Yields P (bind o f)
bind-Yields P Q (ok a s) f q h = h a s q
bind-Yields P Q (err e s) f q h = tt

pub bind-Yields_any {ℓ κ μ} :
    {A : Type ℓ} {B : Type κ}
    → (P : B → Type μ) (o : Result A) (f : A → Reader B) → ((a : A) (s : Bytes) → Yields P (f a s))
    → Yields P (bind o f)
bind-Yields_any P (ok a s) f h = h a s
bind-Yields_any P (err e s) f h = tt
