-- ===== src/Io/Tame.antt =====
-- Readers that never give more bytes than they got, and never meet a fuel.
use go_rsyncfs.Base.{
  ℕ, ◌≤◌, ◌<◌, ◌≡◌, refl, Bool, true, false, inl, inr, [], ◌∷◌, Bytes, length, if◌then◌else◌, arith,
}
use go_rsyncfs.Io.{
  Error, out_of_fuel, Result, ok, err, Reader, bind, ◌>>=◌, return, fail, read_full, read_byte,
  short_read,
}
use go_rsyncfs.Io.Laws.{read_full_cases, read_full_takes}

unfoldable pub is_fuel : Error → Bool
is_fuel out_of_fuel = true
is_fuel e = false

abbrev pub Tame {ℓ} : {A : Type ℓ} → Bytes → Result A → Type 0
Tame s (ok a t) = length t ≤ length s
Tame s (err e t) = is_fuel e ≡ false

pub record IsTame {ℓ} {A : Type ℓ} (m : Reader A) : Type 0 where
  pub outcome : (s : Bytes) → Tame s (m s)

pub Tame-weaken {ℓ} :
    {A : Type ℓ} → (s t : Bytes) (o : Result A) → length t ≤ length s → Tame t o → Tame s o
Tame-weaken s t (ok a u) h k = omega arith
Tame-weaken s t (err e u) h k = k

pub bind-Tame {ℓ κ} :
    {A : Type ℓ} {B : Type κ}
    → (s : Bytes) (o : Result A) (f : A → Reader B) → Tame s o
    → ((a : A) → IsTame (f a))
    → Tame s (bind o f)
bind-Tame s (ok a t) f h k = Tame-weaken s t (f a t) h ((k a).outcome t)
bind-Tame s (err e t) f h k = h

pub bind-IsTame {ℓ κ} :
    {A : Type ℓ} {B : Type κ}
    → (m : Reader A) (f : A → Reader B) → IsTame m
    → ((a : A) → IsTame (f a))
    → IsTame (m >>= f)
bind-IsTame m f h k = record { outcome = λ s. bind-Tame s (m s) f (h.outcome s) k }

pub return-IsTame {ℓ} : {A : Type ℓ} → (a : A) → IsTame (return a)
return-IsTame a = record { outcome = λ s. omega arith }

pub fail-IsTame {ℓ} : {A : Type ℓ} → (e : Error) → is_fuel e ≡ false → IsTame {A = A} (fail e)
fail-IsTame e h = record { outcome = λ s. h }

pub if-IsTame {ℓ} :
    {A : Type ℓ} → (c : Bool) (m n : Reader A) → IsTame m → IsTame n → IsTame (if c then m else n)
if-IsTame true m n h k = h
if-IsTame false m n h k = k

short_read-fuel : (s : Bytes) → is_fuel (short_read s) ≡ false
unfolding is_fuel
short_read-fuel [] = refl
short_read-fuel (b ∷ s) = refl

pub read_full-IsTame : (n : ℕ) → IsTame (read_full n)
read_full-IsTame n = record {
  outcome = λ s. elim (read_full_cases n s) [
    | inl (p, t, e) ↦ rw e (omega (arith, read_full_takes n s p t e))
    | inr e ↦ rw e (short_read-fuel s)
  ];
}

read_byte-Tame : (s : Bytes) → Tame s (read_byte s)
unfolding read_byte is_fuel
read_byte-Tame [] = refl
read_byte-Tame (b ∷ s) = omega arith

pub read_byte-IsTame : IsTame read_byte
read_byte-IsTame = record { outcome = read_byte-Tame }

-- Readers that take a byte at least when they succeed.
abbrev pub Strict {ℓ} : {A : Type ℓ} → Bytes → Result A → Type 0
Strict s (ok a t) = length t < length s
Strict s (err e t) = is_fuel e ≡ false

pub record IsStrict {ℓ} {A : Type ℓ} (m : Reader A) : Type 0 where
  pub progress : (s : Bytes) → Strict s (m s)

Strict-weaken {ℓ} :
    {A : Type ℓ} → (s t : Bytes) (o : Result A) → length t < length s → Tame t o → Strict s o
Strict-weaken s t (ok a u) h k = omega arith
Strict-weaken s t (err e u) h k = k

bind-Strict {ℓ κ} :
    {A : Type ℓ} {B : Type κ}
    → (s : Bytes) (o : Result A) (f : A → Reader B) → Strict s o
    → ((a : A) → IsTame (f a))
    → Strict s (bind o f)
bind-Strict s (ok a t) f h k = Strict-weaken s t (f a t) h ((k a).outcome t)
bind-Strict s (err e t) f h k = h

pub bind-IsStrict {ℓ κ} :
    {A : Type ℓ} {B : Type κ}
    → (m : Reader A) (f : A → Reader B) → IsStrict m
    → ((a : A) → IsTame (f a))
    → IsStrict (m >>= f)
bind-IsStrict m f h k = record { progress = λ s. bind-Strict s (m s) f (h.progress s) k }

pub if-IsStrict {ℓ} :
    {A : Type ℓ}
    → (c : Bool) (m n : Reader A) → IsStrict m
    → IsStrict n
    → IsStrict (if c then m else n)
if-IsStrict true m n h k = h
if-IsStrict false m n h k = k

read_byte-Strict : (s : Bytes) → Strict s (read_byte s)
unfolding read_byte is_fuel
read_byte-Strict [] = refl
read_byte-Strict (b ∷ s) = omega arith

pub read_byte-IsStrict : IsStrict read_byte
read_byte-IsStrict = record { progress = read_byte-Strict }

pub read_full-IsStrict : (n : ℕ) → 0 < n → IsStrict (read_full n)
read_full-IsStrict n h = record {
  progress = λ s. elim (read_full_cases n s) [
    | inl (p, t, e) ↦ rw e (omega (arith, read_full_takes n s p t e))
    | inr e ↦ rw e (short_read-fuel s)
  ];
}
