-- ===== src/Handshake/Text/Cuts.antt =====
-- What CutPrefix, Cut and TrimSpace do with text that is put together.
use go_rsyncfs.Base.{
  ℕ, ◌≡◌, refl, ap, true, false, [], ◌∷◌, ◌++◌, some, Bytes, ◌==◌, arith, All, List, length,
}
use go_rsyncfs.Handshake.{is_space, join}
use go_rsyncfs.Handshake.Algorithms.{IsName}
use go_rsyncfs.Handshake.Text.{cut_prefix, cut, trim_left, keep_right, trim_right, trim_space}

pub cut_prefix-append : (p s : Bytes) → cut_prefix p (p ++ s) ≡ some s
unfolding cut_prefix
cut_prefix-append [] s = refl
cut_prefix-append (b ∷ p) s =
    let same : (b == b) ≡ true = ground arith in rw same (cut_prefix-append p s)

pub cut-append :
    (c : ℕ) (s t : Bytes) → All (λ (b : ℕ). b == c ≡ false) s → cut c (s ++ (c ∷ t)) ≡ (s, some t)
unfolding cut
cut-append c [] t all = let same : (c == c) ≡ true = ground arith in rw same refl
cut-append c (b ∷ s) t all = rw (all.0, cut-append c s t all.1) refl

-- The last byte is no space.
abbrev pub EndsInWord : Bytes → Type 0
EndsInWord [] = ⊥
EndsInWord (b ∷ []) = is_space b ≡ false
EndsInWord (b ∷ c ∷ s) = EndsInWord (c ∷ s)

trim_right-EndsInWord : (s : Bytes) → EndsInWord s → trim_right s ≡ s
unfolding trim_right
trim_right-EndsInWord [] h = absurd h
trim_right-EndsInWord (b ∷ []) h = rw h refl
trim_right-EndsInWord (b ∷ c ∷ s) h = ap (keep_right b) (trim_right-EndsInWord (c ∷ s) h)

-- Nothing is trimmed off a text with no space at either end.
pub trim_space-EndsInWord :
    (b : ℕ) (s : Bytes) → is_space b ≡ false → EndsInWord (b ∷ s) → trim_space (b ∷ s) ≡ b ∷ s
unfolding trim_space trim_left
trim_space-EndsInWord b s first last = rw first (trim_right-EndsInWord (b ∷ s) last)

pub append-EndsInWord : (s t : Bytes) → EndsInWord t → EndsInWord (s ++ t)
append-EndsInWord [] t h = h
append-EndsInWord (b ∷ []) [] h = absurd h
append-EndsInWord (b ∷ []) (c ∷ t) h = h
append-EndsInWord (b ∷ c ∷ s) t h = append-EndsInWord (c ∷ s) t h

word-EndsInWord : (d : Bytes) → IsName d → EndsInWord d
word-EndsInWord [] h = absurd (h.0 refl)
word-EndsInWord (b ∷ []) h = h.1.0
word-EndsInWord (b ∷ c ∷ d) h =
    word-EndsInWord (c ∷ d) (λ e. absurd (omega (arith, ap length e)), h.1.1)

pub join-EndsInWord :
    (d : Bytes) (names : List Bytes) → All IsName (d ∷ names) → EndsInWord (join (d ∷ names))
unfolding join
join-EndsInWord d [] h = word-EndsInWord d h.0
join-EndsInWord d (e ∷ names) h =
    append-EndsInWord d (b' ' ∷ join (e ∷ names))
      (append-EndsInWord (b' ' ∷ []) (join (e ∷ names)) (join-EndsInWord e names h.1))

words-EndsInWord :
    (b : ℕ) (s : Bytes) → All (λ (c : ℕ). is_space c ≡ false) (b ∷ s) → EndsInWord (b ∷ s)
words-EndsInWord b [] h = h.0
words-EndsInWord b (c ∷ s) h = words-EndsInWord c s h.1

-- Nothing is trimmed off a text without spaces.
pub trim_space_words : (s : Bytes) → All (λ (b : ℕ). is_space b ≡ false) s → trim_space s ≡ s
unfolding trim_space trim_left trim_right
trim_space_words [] h = refl
trim_space_words (b ∷ s) h = trim_space-EndsInWord b s h.0 (words-EndsInWord b s h)
