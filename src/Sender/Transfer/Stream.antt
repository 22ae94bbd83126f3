-- ===== src/Sender/Transfer/Stream.antt =====
-- The delta that matchSums sends, for the sums that receiveSums read.
use go_rsyncfs.Base.{
  ℕ, ◌+◌, ◌^◌, ◌≤◌, ◌<◌, ◌≡◌, refl, sym, ap, ◌∙◌, List, [], ◌∷◌, ◌++◌, append_assoc, append-nil,
  some, Bytes, length, take, drop, All, arith, inl, inr, ◌⊎◌, Bool-cases, ltb→lt, true, false, ltb,
  ◌&&◌,
}
use go_rsyncfs.Io.{ok, err, panic}
use go_rsyncfs.Checksum.{SumHead, max_block_length}
use go_rsyncfs.Checksum.Heads.{IsSafe}
use go_rsyncfs.Delta.{Token, literal, write_delta_stream, parse_delta_stream}
use go_rsyncfs.Delta.RoundTrip.{rebuild, received, IsToken, parse_delta_stream-write_delta_stream}
use go_rsyncfs.Sender.Match.{BlockSum, hash_search}
use go_rsyncfs.Sender.Match.Table.{get_elem?}
use go_rsyncfs.Sender.Match.Rebuilds.{hash_search-rebuild}
use go_rsyncfs.Sender.Match.Panics.{hash_search-panics}
use go_rsyncfs.Checksum.Settings.{ChecksumSettings, strong_sum, whole_sum}
use go_rsyncfs.Sender.Transfer.{match_tokens, match_sums, receive_sums}
use go_rsyncfs.Sender.Transfer.Received.{IsReceived, receive_sums-IsReceived}

blength_bound : (version : ℕ) (sh : SumHead) → IsSafe version sh → sh.blength < 2 ^ 31
unfolding max_block_length
blength_bound version sh safe = ground (arith, safe.blength_le)

module _ (md4_sum md5_sum : Bytes → Bytes) (c : ChecksumSettings) (s : Bytes) (sh : SumHead)
    (sums : List BlockSum) where
  searched :
      (tail : Bytes)
      → 0 < length s
      → 0 < sh.count
      → match_tokens md4_sum md5_sum c s sh sums tail
        ≡ hash_search (strong_sum md4_sum md5_sum c) s sh.blength sums tail
  unfolding match_tokens
  searched tail some_data some_sums =
      let e : (ltb 0 (length s) && ltb 0 sh.count) ≡ true = ground arith in rw e refl

  not_searched :
      (tail : Bytes)
      → (length s ≡ 0) ⊎ (sh.count ≡ 0)
      → match_tokens md4_sum md5_sum c s sh sums tail ≡ ok (literal s ∷ []) tail
  unfolding match_tokens
  not_searched tail h =
      let e : (ltb 0 (length s) && ltb 0 sh.count) ≡ false = ground arith in rw e refl

  -- The sums are those of the blocks of the basis.
  abbrev pub HasBlocks : (ℕ → Bytes) → Type 0
  HasBlocks basis =
      (i : ℕ) (b : BlockSum)
      → get_elem? sums i ≡ some b
      → strong_sum md4_sum md5_sum c (length b.sum2) (basis i) ≡ b.sum2

  -- No window of the data has the strong checksum of a block of the basis and is not that block.
  abbrev pub NoCollision : (ℕ → Bytes) → Type 0
  NoCollision basis =
      (i : ℕ) (b : BlockSum) (o : ℕ)
      → get_elem? sums i ≡ some b
      → o + b.len ≤ length s
      → strong_sum md4_sum md5_sum c (length b.sum2) (take b.len (drop o s))
        ≡ strong_sum md4_sum md5_sum c (length b.sum2) (basis i)
      → take b.len (drop o s) ≡ basis i

  match_tokens-rebuild :
      (basis : ℕ → Bytes) (tail : Bytes)
      → IsReceived c.ver sh sums
      → sh.remainder < 2 ^ 31
      → HasBlocks basis
      → NoCollision basis
      → (ts : List Token) × (match_tokens md4_sum md5_sum c s sh sums tail ≡ ok ts tail)
        × (rebuild basis ts ≡ s)
        × All IsToken ts
  unfolding rebuild
  match_tokens-rebuild basis tail r fits blocks apart = elim (Bool-cases (ltb 0 (length s))) [
    | inr empty ↦ whole_file (inl (ground arith))
    | inl some_data ↦ elim (Bool-cases (ltb 0 sh.count)) [
      | inr no_sums ↦ whole_file (inr (ground arith))
      | inl some_sums ↦
          let pos = ltb→lt 0 (length s) some_data in
          let (last, is_last, len) = r.last (ltb→lt 0 sh.count some_sums) in
          let last_pos : 0 < last.len = ground (arith, r.safe.blocks) in
          rw (searched tail pos (ltb→lt 0 sh.count some_sums)) (
            hash_search-rebuild (strong_sum md4_sum md5_sum c) s sh.blength sums last basis tail pos
              (r.safe.blocks (ltb→lt 0 sh.count some_sums)) is_last last_pos
              (ground (arith, blength_bound c.ver sh r.safe))
              (omega (arith, r.count, r.safe.count_nonneg))
              (λ i b e o within same. sym (apart i b o e within (same ∙ sym (blocks i b e)))))
    ]
  ]
    where
      whole_file :
          (length s ≡ 0) ⊎ (sh.count ≡ 0)
          → (ts : List Token) × (match_tokens md4_sum md5_sum c s sh sums tail ≡ ok ts tail)
            × (rebuild basis ts ≡ s)
            × All IsToken ts
      whole_file h = (literal s ∷ [], not_searched tail h, append-nil s, (tt, tt))

  -- For the sums that a client sent, with a remainder that is not negative, of the blocks of a basis,
  -- where no window of the data has the strong checksum of a block and is another one: matchSums
  -- ends and sends a delta that ParseDeltaStream reads as tokens that stand for the data over that
  -- basis, and the checksum of the data behind it.
  pub match_sums-rebuild :
      (basis : ℕ → Bytes) (sent rest tail more : Bytes)
      → receive_sums c.ver sent ≡ ok (sh, sums) rest
      → sh.remainder < 2 ^ 31
      → HasBlocks basis
      → NoCollision basis
      → (out : Bytes) × (ts : List Token) × (match_sums md4_sum md5_sum c s sh sums tail
          ≡ ok out tail)
        × (parse_delta_stream (out ++ more) ≡ ok ts (whole_sum md4_sum md5_sum c s ++ more))
        × (rebuild basis ts ≡ s)
  unfolding match_sums
  match_sums-rebuild basis sent rest tail more e fits blocks apart =
      let r = receive_sums-IsReceived c.ver sent rest sh sums e in
      let (ts, m, b, tokens) = match_tokens-rebuild basis tail r fits blocks apart in
      let sum = whole_sum md4_sum md5_sum c s in
      let (parsed, same) = parse_delta_stream-write_delta_stream ts (sum ++ more) basis tokens in
      (
        write_delta_stream ts ++ sum,
        received ts,
        rw (match_sums, m) refl,
        ap parse_delta_stream (append_assoc (write_delta_stream ts) sum more) ∙ parsed,
        same ∙ b,
      )

  -- A negative remainder, which ReadSumHead takes, with one block at least, makes matchSums panic on
  -- all data but none.
  pub match_sums-panics :
      (sent rest tail : Bytes)
      → receive_sums c.ver sent ≡ ok (sh, sums) rest
      → 0 < sh.count
      → 2 ^ 31 ≤ sh.remainder
      → 0 < length s
      → match_sums md4_sum md5_sum c s sh sums tail ≡ err panic tail
  unfolding match_sums
  match_sums-panics sent rest tail e some_sums negative pos =
      let r = receive_sums-IsReceived c.ver sent rest sh sums e in
      let (last, is_last, len) = r.last some_sums in
      let last_negative : 2 ^ 31 ≤ last.len = ground arith in
      rw
        (
          match_sums,
          searched tail pos some_sums,
          hash_search-panics (strong_sum md4_sum md5_sum c) s sh.blength sums last tail is_last
              last_negative r.not_empty,
        )
        refl
