-- ===== src/Sender/Match/Fill.antt =====
-- The literal fills of hashSearch, and what a round of it must achieve.
use go_rsyncfs.Base.{
  ℕ, ◌+◌, ◌-◌, ◌^◌, ◌≤◌, ◌<◌, ◌≡◌, sym, ap, ◌∙◌, List, [], ◌++◌, append-nil, Bytes, length, take,
  drop, All, arith, inl, inr, Bool-cases, leb, take-then-drop, drop_all,
}
use go_rsyncfs.Delta.{Token}
use go_rsyncfs.Delta.RoundTrip.{rebuild, IsToken}
use go_rsyncfs.Sender.Match.{BlockSum, Search, send_literal_fill}

-- What a basis is to the blocks of a search through `s`: a window of `s` with the length and the
-- strong checksum of a block is that block of the basis.
abbrev pub Describes : (ℕ → Bytes → Bytes) → Bytes → (ℕ → Bytes) → ℕ → BlockSum → Type 0
Describes strong s basis i b =
    (i < 2 ^ 31)
    × ((o : ℕ)
        → o + b.len ≤ length s
        → strong (length b.sum2) (take b.len (drop o s)) ≡ b.sum2
        → basis i ≡ take b.len (drop o s))

-- A round took `w` to `w'` and wrote `ts`: whatever stands for the data behind `w'`, stands behind
-- `ts` for the data behind `w`.
pub record Advances (s : Bytes) (basis : ℕ → Bytes) (w w' : Search) (ts : List Token) : Type 0 where
  pub moves : w.offset < w'.offset
  pub behind : w'.last_match ≤ w'.offset
  pub within : w'.offset ≤ length s
  pub emits :
      (later : List Token)
      → rebuild basis later ≡ drop w'.last_match s
      → rebuild basis (ts ++ later) ≡ drop w.last_match s
  pub tokens : All IsToken ts

module _ (s : Bytes) (basis : ℕ → Bytes) where
  pub rebuild-fill :
      (a b : ℕ) (later : List Token)
      → a ≤ b
      → rebuild basis later ≡ drop b s
      → rebuild basis (send_literal_fill s a b ++ later) ≡ drop a s
  unfolding send_literal_fill rebuild
  rebuild-fill a b later le e = elim (Bool-cases (leb b a)) [
    | inl none_left ↦ rw none_left (e ∙ ap (λ (n : ℕ). drop n s) (ground arith))
    | inr some_left ↦
        rw some_left (ap (λ (t : Bytes). take (b - a) (drop a s) ++ t) e ∙ take-then-drop a b s le)
  ]

  pub fill-tokens : (a b : ℕ) → All IsToken (send_literal_fill s a b)
  unfolding send_literal_fill
  fill-tokens a b = elim (Bool-cases (leb b a)) [ inl e ↦ rw e tt | inr e ↦ rw e (tt, tt) ]

  -- The trailing literal.
  pub rebuild-rest :
      (a : ℕ) → a ≤ length s → rebuild basis (send_literal_fill s a (length s)) ≡ drop a s
  unfolding rebuild
  rebuild-rest a le =
      ap (rebuild basis) (sym (append-nil (send_literal_fill s a (length s))))
      ∙ rebuild-fill a (length s) [] le (sym (drop_all (length s) s (omega arith)))
