-- ===== src/Sender/Transfer/Received.antt =====
-- What receiveSums returns, from any bytes at all.
use go_rsyncfs.Base.{
  ℕ, zero, suc, ◌<◌, ◌≡◌, refl, ap, ◌∙◌, List, [], ◌∷◌, Option, none, some, Bytes, length, All,
  arith, inl, inr, Bool-cases, ◌==◌, if◌then◌else◌,
}
use mathlib.Core.Path.{subst}
use go_rsyncfs.Io.{Result, ok, err, read_full}
use go_rsyncfs.Io.Laws.{Yields, bind-Yields, bind-Yields_any}
use go_rsyncfs.Wire.Fixed.{read_int32}
use go_rsyncfs.Checksum.{SumHead, read_sum_head}
use go_rsyncfs.Checksum.Heads.{IsSafe, read_sum_head-IsSafe}
use go_rsyncfs.Sender.Match.{BlockSum, last_of}
use go_rsyncfs.Sender.Match.Table.{get_elem?}
use go_rsyncfs.Sender.Transfer.{read_sums, set_last_len, receive_sums}
use go_rsyncfs.Checksum.Settings.{strong_length}

-- The length of the last block: the remainder, unless it is 0.
abbrev pub last_length : SumHead → ℕ
last_length sh = if sh.remainder == 0 then sh.blength else sh.remainder

-- The sums are as many as the head says, none for an empty block, and the last one has the length
-- of the last block.
pub record IsReceived (version : ℕ) (sh : SumHead) (sums : List BlockSum) : Type 0 where
  pub safe : IsSafe version sh
  pub count : length sums ≡ sh.count
  pub not_empty : (i : ℕ) (b : BlockSum) → get_elem? sums i ≡ some b → 0 < b.len
  pub last : 0 < sh.count → (b : BlockSum) × (last_of sums ≡ some b) × (b.len ≡ last_length sh)

-- Blocks of one length.
abbrev Blocks : ℕ → ℕ → List BlockSum → Type 0
Blocks n l sums = (length sums ≡ n) × All (λ (b : BlockSum). b.len ≡ l) sums

read_sums-Blocks : (n s2len l : ℕ) (s : Bytes) → Yields (Blocks n l) (read_sums n s2len l s)
unfolding read_sums
read_sums-Blocks zero s2len l s = (refl, tt)
read_sums-Blocks (suc n) s2len l s = bind-Yields_any (Blocks (suc n) l) (read_int32 s) _ (λ s1 t.
    bind-Yields_any (Blocks (suc n) l) (read_full s2len t) _ (λ s2 u.
      bind-Yields (Blocks (suc n) l) (Blocks n l) (read_sums n s2len l u) _
        (read_sums-Blocks n s2len l u) (λ sums v h. (ap suc h.0, (refl, h.1)))))

length-set_last_len : (n : ℕ) (sums : List BlockSum) → length (set_last_len n sums) ≡ length sums
unfolding set_last_len
length-set_last_len n [] = refl
length-set_last_len n (b ∷ []) = refl
length-set_last_len n (b ∷ c ∷ sums) = ap suc (length-set_last_len n (c ∷ sums))

-- A property of the lengths of all the blocks.
abbrev AllLen : (ℕ → Type 0) → List BlockSum → Type 0
AllLen P sums = All (λ (b : BlockSum). P b.len) sums

set_last_len-All :
    (P : ℕ → Type 0) (n : ℕ) (sums : List BlockSum)
    → P n
    → AllLen P sums
    → AllLen P (set_last_len n sums)
unfolding set_last_len
set_last_len-All P n [] h all = tt
set_last_len-All P n (b ∷ []) h all = (h, tt)
set_last_len-All P n (b ∷ c ∷ sums) h all = (all.0, set_last_len-All P n (c ∷ sums) h all.1)

last_of-set_last_len :
    (n : ℕ) (sums : List BlockSum)
    → 0 < length sums
    → (b : BlockSum) × (last_of (set_last_len n sums) ≡ some b) × (b.len ≡ n)
unfolding set_last_len last_of
last_of-set_last_len n [] h = absurd (omega arith)
last_of-set_last_len n (b ∷ []) h = (record b { len = n }, refl, refl)
last_of-set_last_len n (b ∷ c ∷ []) h = (record c { len = n }, refl, refl)
last_of-set_last_len n (b ∷ c ∷ d ∷ sums) h = last_of-set_last_len n (c ∷ d ∷ sums) (omega arith)

last_of-All :
    (P : ℕ → Type 0) (sums : List BlockSum)
    → 0 < length sums
    → AllLen P sums
    → (b : BlockSum) × (last_of sums ≡ some b) × P b.len
unfolding last_of
last_of-All P [] h all = absurd (omega arith)
last_of-All P (b ∷ []) h all = (b, refl, all.0)
last_of-All P (b ∷ c ∷ sums) h all = last_of-All P (c ∷ sums) (omega arith) all.1

OfLen : (ℕ → Type 0) → Option BlockSum → Type 0
OfLen P none = Unit
OfLen P (some b) = P b.len

All-get_elem? :
    (P : ℕ → Type 0) (sums : List BlockSum)
    → AllLen P sums
    → (i : ℕ) (b : BlockSum) → get_elem? sums i ≡ some b
    → P b.len
unfolding OfLen
All-get_elem? P [] all i b e = cc
All-get_elem? P (c ∷ sums) all zero b e = subst (λ (o : Option BlockSum). OfLen P o) e all.0
All-get_elem? P (c ∷ sums) all (suc i) b e = All-get_elem? P sums all.1 i b e

All-positive :
    (l : ℕ) (sums : List BlockSum)
    → 0 < l
    → AllLen (λ (n : ℕ). n ≡ l) sums
    → AllLen (λ (n : ℕ). 0 < n) sums
All-positive l [] pos all = tt
All-positive l (b ∷ sums) pos all = (omega (arith, all.0), All-positive l sums pos all.1)

Yields-of_ok {ℓ κ} :
    {A : Type ℓ} (P : A → Type κ) (o : Result A)
    → ((a : A) (t : Bytes) → o ≡ ok a t → P a)
    → Yields P o
Yields-of_ok P (ok a t) h = h a t refl
Yields-of_ok P (err e t) h = tt

of_Yields {ℓ κ} :
    {A : Type ℓ} (P : A → Type κ) (o : Result A) (a : A) (t : Bytes) → o ≡ ok a t → Yields P o → P a
of_Yields P o a t e y = subst (Yields P) e y

module _ (version : ℕ) (sh : SumHead) (safe : IsSafe version sh) where
  no_sums-IsReceived : sh.count ≡ 0 → IsReceived version sh []
  no_sums-IsReceived e = record {
    safe = safe;
    count = omega arith;
    not_empty = λ i b f. cc;
    last = λ h. absurd (omega arith);
  }

  sums-IsReceived :
      (sums : List BlockSum)
      → 0 < sh.count
      → Blocks sh.count sh.blength sums
      → IsReceived version sh (if sh.remainder == 0 then sums else set_last_len sh.remainder sums)
  sums-IsReceived sums pos (count, all) =
      let blen_pos = safe.blocks pos in
      let lengths : AllLen (λ (n : ℕ). 0 < n) sums = All-positive sh.blength sums blen_pos all in
      elim (Bool-cases (sh.remainder == 0)) [
        | inl whole ↦ rw whole (record {
          safe = safe;
          count = count;
          not_empty = All-get_elem? (λ (n : ℕ). 0 < n) sums lengths;
          last = λ h. rw whole (last_of-All (λ (n : ℕ). n ≡ sh.blength) sums (omega arith) all);
        })
        | inr cut ↦ rw cut (record {
          safe = safe;
          count = length-set_last_len sh.remainder sums ∙ count;
          not_empty =
              All-get_elem? (λ (n : ℕ). 0 < n) (set_last_len sh.remainder sums)
                (set_last_len-All (λ (n : ℕ). 0 < n) sh.remainder sums (ground arith) lengths);
          last = λ h. rw cut (last_of-set_last_len sh.remainder sums (omega arith));
        })
      ]

receive_sums-Yields :
    (version : ℕ) (s : Bytes)
    → Yields (λ (p : SumHead × List BlockSum). IsReceived version p.0 p.1) (receive_sums version s)
unfolding receive_sums
receive_sums-Yields version s =
    bind-Yields (λ (p : SumHead × List BlockSum). IsReceived version p.0 p.1) (IsSafe version)
      (read_sum_head version s) _
      (Yields-of_ok (IsSafe version) (read_sum_head version s)
        (λ sh t. read_sum_head-IsSafe version s t sh))
      (λ sh t safe. elim (Bool-cases (sh.count == 0)) [
        | inl e ↦ rw e (no_sums-IsReceived version sh safe (ground arith))
        | inr e ↦ rw e (
            bind-Yields (λ (p : SumHead × List BlockSum). IsReceived version p.0 p.1)
              (Blocks sh.count sh.blength) (read_sums sh.count (strong_length sh) sh.blength t) _
              (read_sums-Blocks sh.count (strong_length sh) sh.blength t)
              (λ sums u h. sums-IsReceived version sh safe sums (ground arith) h))
      ])

-- Whatever bytes a client sends, the sums that receiveSums returns are as many as their head says,
-- no block among them is empty, the last one has the length of the remainder, or of a block if that
-- is 0, and the head is safe.
pub receive_sums-IsReceived :
    (version : ℕ) (s rest : Bytes) (sh : SumHead) (sums : List BlockSum)
    → receive_sums version s ≡ ok (sh, sums) rest
    → IsReceived version sh sums
receive_sums-IsReceived version s rest sh sums e =
    of_Yields (λ (p : SumHead × List BlockSum). IsReceived version p.0 p.1) (receive_sums version s)
      (sh, sums) rest e (receive_sums-Yields version s)
