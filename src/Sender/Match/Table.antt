-- ===== src/Sender/Match/Table.antt =====
-- What the chains of the table hold: blocks under their indices.
use go_rsyncfs.Base.{
  ℕ, zero, suc, ◌+◌, ◌≡◌, refl, List, [], ◌∷◌, Option, none, some, Bytes, All, arith, true, inl,
  inr, ◌⊎◌, Bool-cases, ◌==◌, length, min, take, drop, ◌-◌,
}
use mathlib.Core.Path.{subst}
use go_rsyncfs.Sender.Match.{
  BlockSum, Table, empty_table, build_table, hash_of, find_match, is_match, Search,
}
use go_rsyncfs.Equal.{bytes_equal→≡}

-- The block of an index.
abbrev pub get_elem? : List BlockSum → ℕ → Option BlockSum
get_elem? [] i = none
get_elem? (b ∷ sums) zero = some b
get_elem? (b ∷ sums) (suc i) = get_elem? sums i

-- A property of all that stands in a chain.
abbrev pub AllOf : (ℕ → BlockSum → Type 0) → ℕ × BlockSum → Type 0
AllOf P (i, b) = P i b

build_table-All :
    (P : ℕ → BlockSum → Type 0) (from : ℕ) (table : Table) (sums : List BlockSum)
    → ((j : ℕ) (b : BlockSum) → get_elem? sums j ≡ some b → P (from + j) b)
    → ((key : ℕ) → All (AllOf P) (table key))
    → (key : ℕ) → All (AllOf P) (build_table from table sums key)
unfolding build_table
build_table-All P from table [] h all key = all key
build_table-All P from table (b ∷ sums) h all key =
    build_table-All P (suc from) _ sums
      (λ j c e. subst (λ (i : ℕ). P i c) (omega arith) (h (suc j) c e))
      (λ other. elim (Bool-cases (other == hash_of b)) [
        | inl same ↦ rw same (subst (λ (i : ℕ). P i b) (omega arith) (h 0 b refl), all other)
        | inr differs ↦ rw differs (all other)
      ])
      key

pub chains-All :
    (P : ℕ → BlockSum → Type 0) (sums : List BlockSum)
    → ((j : ℕ) (b : BlockSum) → get_elem? sums j ≡ some b → P j b)
    → (key : ℕ) → All (AllOf P) (build_table 0 empty_table sums key)
chains-All P sums h =
    build_table-All P 0 empty_table sums (λ j b e. subst (λ (i : ℕ). P i b) (omega arith) (h j b e))
      (λ key. tt)

module _ (strong : ℕ → Bytes → Bytes) (s : Bytes) (blen last_len : ℕ) (table : Table) where
  -- A match is a block of the chain that passed the test.
  pub find_match_cases :
      (P : ℕ → BlockSum → Type 0) (w : Search) (chain : List (ℕ × BlockSum))
      → All (AllOf P) chain
      → (find_match strong s blen last_len table w chain ≡ none)
        ⊎ ((i : ℕ) × (b : BlockSum) × (find_match strong s blen last_len table w chain
              ≡ some (i, b))
            × P i b
            × (is_match strong s blen last_len table w b ≡ true))
  unfolding find_match
  find_match_cases P w [] all = inl refl
  find_match_cases P w ((i, b) ∷ chain) all =
      elim (Bool-cases (is_match strong s blen last_len table w b)) [
        | inl e ↦ inr (i, b, rw (find_match, e) refl, all.0, e)
        | inr e ↦ rw (find_match, e) (find_match_cases P w chain all.1)
      ]

  -- A block that matches has the length and the strong checksum of the window.
  pub is_match-strong :
      (w : Search) (b : BlockSum)
      → is_match strong s blen last_len table w b ≡ true
      → (b.len ≡ min blen (length s - w.offset))
        × (strong (length b.sum2) (take (min blen (length s - w.offset)) (drop w.offset s))
            ≡ b.sum2)
  unfolding is_match
  is_match-strong w b e = (ground arith, bytes_equal→≡ _ _ (ground arith))
