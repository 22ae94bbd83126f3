-- ===== src/Base/Sorting.antt =====
-- A stable sort by a test for "less", as slices.SortStableFunc and sort.SliceStable do it: by tests
-- of a later element against an earlier one.
use go_rsyncfs.Base.Tests.{if◌then◌else◌, Bool-cases}
use go_rsyncfs.Base.Lists.{All}
use mathlib.Core.Path.{◌≡◌, refl}
use mathlib.Core.Logic.{inl, inr}
use mathlib.Core.Bool.{Bool, true, false}
use mathlib.Core.List.{List, [], ◌∷◌}

-- A relation between each element and those behind it.
abbrev pub IsPairwise {ℓ} : {A : Type ℓ} → (A → A → Type 0) → List A → Type 0
IsPairwise R [] = Unit {0}
IsPairwise R (x ∷ xs) = All (R x) xs × IsPairwise R xs

module _ {ℓ} {A : Type ℓ} (less : A → A → Bool) where
  -- `x` stood before the elements of the list.
  unfoldable pub insert : A → List A → List A
  insert x [] = x ∷ []
  insert x (y ∷ ys) = let later = y ∷ insert x ys in if less y x then later else x ∷ y ∷ ys

  unfoldable pub sort : List A → List A
  unfolding insert
  sort [] = []
  sort (x ∷ xs) = insert x (sort xs)

  -- No element is less than the one before it.
  abbrev pub IsSorted : List A → Type 0
  IsSorted [] = Unit {0}
  IsSorted (x ∷ []) = Unit {0}
  IsSorted (x ∷ y ∷ ys) = (less y x ≡ false) × IsSorted (y ∷ ys)

  -- Of two elements, at most one is less than the other.
  abbrev pub Against : A → A → Type 0
  Against x y = less y x ≡ true → less x y ≡ false

  abbrev pub IsAsymmetric : List A → Type 0
  IsAsymmetric xs = IsPairwise Against xs

  All-insert : (P : A → Type 0) (x : A) (ys : List A) → P x → All P ys → All P (insert x ys)
  unfolding insert
  All-insert P x [] p ps = (p, tt)
  All-insert P x (y ∷ ys) p (q, qs) = elim (Bool-cases (less y x)) [
    | inl later ↦ rw later (q, All-insert P x ys p qs)
    | inr here ↦ rw here (p, (q, qs))
  ]

  All-sort : (P : A → Type 0) (xs : List A) → All P xs → All P (sort xs)
  unfolding sort
  All-sort P [] ps = tt
  All-sort P (x ∷ xs) (p, ps) = All-insert P x (sort xs) p (All-sort P xs ps)

  -- Behind `y`, which is not above the list.
  insert_behind :
      (y x : A) (ys : List A)
      → less x y ≡ false
      → IsSorted (y ∷ ys)
      → IsSorted (insert x ys)
      → IsSorted (y ∷ insert x ys)
  unfolding insert
  insert_behind y x [] h s t = (h, tt)
  insert_behind y x (z ∷ zs) h (k, s) t = elim (Bool-cases (less z x)) [
    | inl later ↦ rw later (k, rw later at t)
    | inr here ↦ rw here (h, rw here at t)
  ]

  tail_IsSorted : (y : A) (ys : List A) → IsSorted (y ∷ ys) → IsSorted ys
  tail_IsSorted y [] s = tt
  tail_IsSorted y (z ∷ zs) s = s.1

  insert-IsSorted :
      (x : A) (ys : List A) → All (Against x) ys → IsSorted ys → IsSorted (insert x ys)
  unfolding insert
  insert-IsSorted x [] a s = tt
  insert-IsSorted x (y ∷ ys) (a, as') s = elim (Bool-cases (less y x)) [
    | inl later ↦
        rw later
          (insert_behind y x ys (a later) s (insert-IsSorted x ys as' (tail_IsSorted y ys s)))
    | inr here ↦ rw here (here, s)
  ]

  pub sort-IsSorted : (xs : List A) → IsAsymmetric xs → IsSorted (sort xs)
  unfolding sort
  sort-IsSorted [] a = tt
  sort-IsSorted (x ∷ xs) (a, as') =
      insert-IsSorted x (sort xs) (All-sort (Against x) xs a) (sort-IsSorted xs as')

  pub sort-of_IsSorted : (xs : List A) → IsSorted xs → sort xs ≡ xs
  unfolding sort insert
  sort-of_IsSorted [] s = refl
  sort-of_IsSorted (x ∷ []) s = refl
  sort-of_IsSorted (x ∷ y ∷ ys) s = rw (sort-of_IsSorted (y ∷ ys) s.1) (rw s.0 refl)

  module _ (R : A → A → Type 0) (flip : (x y : A) → R x y → R y x) where
    insert-IsPairwise :
        (x : A) (ys : List A) → All (R x) ys → IsPairwise R ys → IsPairwise R (insert x ys)
    unfolding insert
    insert-IsPairwise x [] a p = (tt, tt)
    insert-IsPairwise x (y ∷ ys) (a, as') (q, qs) = elim (Bool-cases (less y x)) [
      | inl later ↦ rw later (All-insert (R y) x ys (flip x y a) q, insert-IsPairwise x ys as' qs)
      | inr here ↦ rw here ((a, as'), (q, qs))
    ]

    pub sort-IsPairwise : (xs : List A) → IsPairwise R xs → IsPairwise R (sort xs)
    unfolding sort
    sort-IsPairwise [] p = tt
    sort-IsPairwise (x ∷ xs) (p, ps) =
        insert-IsPairwise x (sort xs) (All-sort (R x) xs p) (sort-IsPairwise xs ps)
