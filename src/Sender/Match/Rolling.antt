-- ===== src/Sender/Match/Rolling.antt =====
-- The sums of the moving window: after every round they are, modulo 2 ^ 16, those of Checksum1 over
-- the window.
use go_rsyncfs.Base.{
  ℕ, zero, suc, ◌+◌, ◌-◌, ◌*◌, ◌%◌, ◌^◌, ◌<◌, ◌≡◌, refl, sym, ap, ◌∙◌, [], ◌∷◌, ◌++◌, List, Option,
  none, some, Bytes, length, take, drop, get_or, min, arith, inl, inr, Bool-cases, ltb→lt, All,
  All-get_or, length-take, length-drop, take-suc, bit_and, ltb, leb, ◌==◌, ◌||◌,
}
use go_rsyncfs.Base.Bits.{bit_and_mask}
use mathlib.Core.Path.{ap₂, subst}
use go_rsyncfs.Delta.{Token}
use go_rsyncfs.Checksum.Rolling.{
  plain_sum, weighted_sum, checksum1_loop-sums, plain_sum-append, weighted_sum-snoc,
}
use go_rsyncfs.Sender.Match.{
  BlockSum, Search, Table, rolling_checksum, fresh_window, roll, rolled_sums, after_match, no_match,
  search_round, find_match, flushes,
}

-- The window of a search: the bytes at its offset.
abbrev pub window_of : Bytes → Search → Bytes
window_of s w = take w.k (drop w.offset s)

-- The window is as long as a block or as what is left, and the sums are its sums.
pub record IsRolled (s : Bytes) (blen : ℕ) (w : Search) : Type 0 where
  pub width : w.k ≡ min blen (length s - w.offset)
  pub plain : w.s1 % 2 ^ 16 ≡ plain_sum (window_of s w) % 2 ^ 16
  pub weighted : w.s2 % 2 ^ 16 ≡ weighted_sum (window_of s w) % 2 ^ 16

-- rollingChecksum is the two halves of Checksum1.
pub rolling_checksum-sums :
    (s : Bytes) → rolling_checksum s ≡ (plain_sum s % 2 ^ 16, weighted_sum s % 2 ^ 16)
unfolding rolling_checksum
rolling_checksum-sums s = rw (checksum1_loop-sums s) (
    ground
      (arith, bit_and_mask 16 (plain_sum s % 2 ^ 32), bit_and_mask 16 (weighted_sum s % 2 ^ 32)))

fresh_window-IsRolled :
    (s : Bytes) (blen offset m : ℕ) → IsRolled s blen (fresh_window s blen offset m)
unfolding fresh_window
fresh_window-IsRolled s blen offset m =
    let e = rolling_checksum-sums (take (min blen (length s - offset)) (drop offset s)) in
    record {
      width = refl;
      plain = ap (λ (p : ℕ × ℕ). p.0 % 2 ^ 16) e ∙ omega arith;
      weighted = ap (λ (p : ℕ × ℕ). p.1 % 2 ^ 16) e ∙ omega arith;
    }

-- The data from an offset within it.
drop-cons : (n : ℕ) (s : Bytes) → n < length s → drop n s ≡ get_or s n 0 ∷ drop (suc n) s
drop-cons n [] h = absurd (omega arith)
drop-cons zero (x ∷ s) h = refl
drop-cons (suc n) (x ∷ s) h = drop-cons n s (omega arith)

get_or-drop : (n k : ℕ) (s : Bytes) → get_or (drop n s) k 0 ≡ get_or s (n + k) 0
get_or-drop zero k s = ap (λ (i : ℕ). get_or s i 0) (omega arith)
get_or-drop (suc n) k [] = refl
get_or-drop (suc n) k (x ∷ s) =
    let e : suc (n + k) ≡ suc n + k = omega arith in
    get_or-drop n k s ∙ ap (λ (i : ℕ). get_or (x ∷ s) i 0) e

-- The first byte of a window that is not empty.
first_of_window :
    (k n : ℕ) (s : Bytes)
    → 0 < k
    → n < length s
    → take k (drop n s) ≡ get_or s n 0 ∷ take (k - 1) (drop (n + 1) s)
first_of_window zero n s pos h = absurd (omega arith)
first_of_window (suc k) n s pos h =
    let e : k ≡ suc k - 1 = omega arith in
    let f : suc n ≡ n + 1 = omega arith in
    ap (take (suc k)) (drop-cons n s h) ∙ ap₂ (λ (i j : ℕ). get_or s n 0 ∷ take i (drop j s)) e f

-- The last byte of a window that has one behind it.
last_of_window :
    (k n : ℕ) (s : Bytes)
    → 0 < k
    → n + k < length s
    → take k (drop (n + 1) s) ≡ take (k - 1) (drop (n + 1) s) ++ (get_or s (n + k) 0 ∷ [])
last_of_window zero n s pos h = absurd (omega arith)
last_of_window (suc k) n s pos h =
    take-suc k (drop (n + 1) s) 0 (omega (arith, length-drop (n + 1) s))
    ∙ ap₂ (λ (i y : ℕ). take i (drop (n + 1) s) ++ (y ∷ [])) (omega arith)
        (get_or-drop (n + 1) k s ∙ ap (λ (i : ℕ). get_or s i 0) (omega arith))

-- The arithmetic of a roll, over the sums of the bytes between the first and the last one.
rolled_plain :
    (s1 x p y : ℕ)
    → x < 256
    → s1 % 2 ^ 16 ≡ (x + p) % 2 ^ 16
    → ((s1 + (2 ^ 32 - x)) % 2 ^ 32 % 2 ^ 16 ≡ p % 2 ^ 16)
      × (((s1 + (2 ^ 32 - x)) % 2 ^ 32 + y) % 2 ^ 32 % 2 ^ 16 ≡ (p + y) % 2 ^ 16)
rolled_plain s1 x p y small e = (omega arith, omega arith)

rolled_weighted :
    (s2 t v s1 q : ℕ)
    → s2 % 2 ^ 16 ≡ (t + v) % 2 ^ 16
    → s1 % 2 ^ 16 ≡ q % 2 ^ 16
    → ((s2 + (2 ^ 32 - t % 2 ^ 32)) % 2 ^ 32 % 2 ^ 16 ≡ v % 2 ^ 16)
      × (((s2 + (2 ^ 32 - t % 2 ^ 32)) % 2 ^ 32 + s1) % 2 ^ 32 % 2 ^ 16 ≡ (v + q) % 2 ^ 16)
rolled_weighted s2 t v s1 q e f = (omega arith, omega arith)

module _ (s : Bytes) (blen : ℕ) (pos : 0 < blen) (bytes : All (λ (b : ℕ). b < 256) s) where
  roll-IsRolled :
      (w : Search) → w.offset < length s → IsRolled s blen w → IsRolled s blen (roll s w)
  unfolding roll rolled_sums plain_sum weighted_sum
  roll-IsRolled w lt rolled =
      let x = get_or s w.offset 0 in
      let y = get_or s (w.offset + w.k) 0 in
      let between = take (w.k - 1) (drop (w.offset + 1) s) in
      let k_pos : 0 < w.k = omega (arith, rolled.width) in
      let byte : x < 256 = All-get_or (λ (b : ℕ). b < 256) s w.offset 0 bytes (omega arith) in
      let first = first_of_window w.k w.offset s k_pos lt in
      let count : suc (length between) ≡ w.k = omega (
        arith,
        length-take (w.k - 1) (drop (w.offset + 1) s),
        length-drop (w.offset + 1) s,
        rolled.width,
      ) in
      let plain =
        rolled_plain w.s1 x (plain_sum between) y byte
          (rolled.plain ∙ ap (λ (t : Bytes). plain_sum t % 2 ^ 16) first) in
      let sum : w.s2 % 2 ^ 16 ≡ (w.k * x + weighted_sum between) % 2 ^ 16 =
        rolled.weighted
        ∙ ap (λ (t : Bytes). weighted_sum t % 2 ^ 16) first
        ∙ ap (λ (n : ℕ). (n * x + weighted_sum between) % 2 ^ 16) count in
      elim (Bool-cases (ltb (w.offset + w.k) (length s))) [
        | inl more ↦
            let inside : w.offset + w.k < length s = ltb→lt _ _ more in
            let last = last_of_window w.k w.offset s k_pos inside in
            rw (roll, rolled_sums, more)
              (record {
                width = omega (arith, rolled.width);
                plain =
                    plain.1
                    ∙ ap (λ (n : ℕ). n % 2 ^ 16) (omega (arith, plain_sum-append between (y ∷ [])))
                    ∙ ap (λ (t : Bytes). plain_sum t % 2 ^ 16) (sym last);
                weighted =
                    (rolled_weighted w.s2 (w.k * x) (weighted_sum between) _ (plain_sum between + y)
                      sum plain.1).1
                    ∙ ap (λ (n : ℕ). n % 2 ^ 16) (omega (arith, weighted_sum-snoc between y))
                    ∙ ap (λ (t : Bytes). weighted_sum t % 2 ^ 16) (sym last);
              })
        | inr no_more ↦
            rw (roll, rolled_sums, no_more)
              (record {
                width = ground (arith, rolled.width);
                plain = plain.0;
                weighted =
                    (rolled_weighted w.s2 (w.k * x) (weighted_sum between) 0 0 sum (omega arith)).0;
              })
      ]

  module _ (strong : ℕ → Bytes → Bytes) (last_len : ℕ) (table : Table) where
    after_match-IsRolled :
        (w : Search) (i : ℕ) (b : BlockSum) (ts : List Token) (w' : Search)
        → after_match strong s blen last_len table w i b ≡ some (ts, w')
        → IsRolled s blen w'
    unfolding after_match
    after_match-IsRolled w i b ts w' e =
        let m = w.offset + b.len in
        elim (Bool-cases (m == 0 || ltb (length s) m)) [
          | inl outside ↦ ground (arith)
          | inr inside ↦ subst (IsRolled s blen) (ground arith) (
              roll-IsRolled (fresh_window s blen (m - 1) m) (unfold fresh_window in ground arith)
                (fresh_window-IsRolled s blen (m - 1) m))
        ]

    no_match-IsRolled :
        (w : Search) (ts : List Token) (w' : Search)
        → IsRolled s blen w
        → no_match strong s blen last_len table w ≡ some (ts, w')
        → IsRolled s blen w'
    unfolding no_match
    no_match-IsRolled w ts w' rolled e = elim (Bool-cases (leb (length s) w.offset)) [
      | inl outside ↦ ground arith
      | inr inside ↦
          let next = roll-IsRolled w (ground arith) rolled in
          elim (Bool-cases (flushes strong s blen last_len table w)) [
            | inl early ↦
                let sent : IsRolled s blen (record (roll s w) { last_match = w.offset - blen }) =
                  record { width = next.width; plain = next.plain; weighted = next.weighted } in
                subst (IsRolled s blen) (ground arith) sent
            | inr stays ↦ subst (IsRolled s blen) (ground arith) next
          ]
    ]

    search_round-IsRolled :
        (w : Search) (ts : List Token) (w' : Search)
        → IsRolled s blen w
        → search_round strong s blen last_len table w ≡ some (ts, w')
        → IsRolled s blen w'
    unfolding search_round
    search_round-IsRolled w ts w' rolled e =
        after (find_match strong s blen last_len table w (table (bit_and (w.s1 + w.s2) 0xffff)))
          refl
      where
        after :
            (o : Option (ℕ × BlockSum))
            → find_match strong s blen last_len table w (table (bit_and (w.s1 + w.s2) 0xffff)) ≡ o
            → IsRolled s blen w'
        after none f = no_match-IsRolled w ts w' rolled (rw (search_round, f) at (e))
        after (some (i, b)) f = after_match-IsRolled w i b ts w' (rw (search_round, f) at (e))

-- The states that the loop of hashSearch comes to.
pub data Reached (strong : ℕ → Bytes → Bytes) (s : Bytes) (blen last_len : ℕ) (table : Table)
    : Search → Type 0 where
  start : Reached strong s blen last_len table (fresh_window s blen 0 0)
  round :
      {w w' : Search} {ts : List Token}
      → Reached strong s blen last_len table w
      → search_round strong s blen last_len table w ≡ some (ts, w')
      → Reached strong s blen last_len table w'

-- Whatever matched before, in each state that hashSearch comes to the window is as long as a block
-- or as what is left of the data, and the sums that were rolled along are, modulo 2 ^ 16, the plain
-- and the weighted sum of its bytes. The block length is not 0.
pub Reached-IsRolled :
    {strong : ℕ → Bytes → Bytes} {s : Bytes} {blen last_len : ℕ} {table : Table} {w : Search}
    → 0 < blen
    → All (λ (b : ℕ). b < 256) s
    → Reached strong s blen last_len table w
    → IsRolled s blen w
Reached-IsRolled {s = s} {blen = blen} pos bytes start = fresh_window-IsRolled s blen 0 0
Reached-IsRolled {strong = strong} {s = s} {blen = blen} {last_len = last_len} {table = table} pos
      bytes (round {w} {w'} {ts} r e) =
    search_round-IsRolled s blen pos bytes strong last_len table w ts w'
      (Reached-IsRolled pos bytes r) e
