-- ===== src/Sender/Filters.antt =====
-- The filter list that the sender drops (server-send.go recvFilterList).
use go_rsyncfs.Base.{
  ℕ, zero, suc, ◌^◌, ◌≤◌, ◌<◌, ◌≡◌, refl, List, [], ◌∷◌, ◌++◌, append_assoc, Bytes, length,
  length-append, All, arith, ◌==◌, ◌∙◌, true, false,
}
use go_rsyncfs.Io.{Reader, Result, ◌>>=◌, return, fail, ok, out_of_fuel, invalid_filter_length}
use go_rsyncfs.Io.Laws.{split_at-append}
use go_rsyncfs.Wire.Le.{length-le_bytes}
use go_rsyncfs.Wire.Fixed.{is_neg32, read_int32, write_int32}
use go_rsyncfs.Wire.Fixed.RoundTrip.{read_int32-write_int32}
use go_rsyncfs.Client.FileList.{discard}

-- What recvFilterList does with a length: a rule, and the rules that follow it.
unfoldable pub take_rule : Reader (Unit {0}) → ℕ → Reader (Unit {0})
take_rule go_on n = elim (n == 0) [
  | true ↦ return tt
  | false ↦ elim (is_neg32 n) [
    | true ↦ fail invalid_filter_length
    | false ↦ discard n >>= (λ dropped. go_on)
  ]
]

unfoldable pub read_filters : ℕ → Reader (Unit {0})
read_filters zero = fail out_of_fuel
read_filters (suc fuel) = do n ← read_int32; take_rule (read_filters fuel) n

-- A rule takes a byte at least.
unfoldable pub recv_filter_list : Reader (Unit {0})
recv_filter_list s = read_filters (suc (length s)) s

-- A list of rules as a client sends it: each behind its length, and a length of 0.
unfoldable pub rules_text : List Bytes → Bytes
rules_text [] = write_int32 0
rules_text (rule ∷ rules) = write_int32 (length rule) ++ (rule ++ rules_text rules)

abbrev pub IsRule : Bytes → Type 0
IsRule rule = (0 < length rule) × (length rule < 2 ^ 31)

discarded : (s t : Bytes) → discard (length s) (s ++ t) ≡ ok tt t
unfolding discard
discarded s t = rw (discard, split_at-append s t) refl

take_rule-drops :
    (go_on : Reader (Unit {0})) (rule rest : Bytes)
    → IsRule rule
    → take_rule go_on (length rule) (rule ++ rest) ≡ go_on rest
unfolding take_rule
take_rule-drops go_on rule rest h =
    let some_bytes : (length rule == 0) ≡ false = ground (arith, h.0) in
    let positive : is_neg32 (length rule) ≡ false = ground (arith, h.1) in
    rw (take_rule, some_bytes, positive, ◌>>=◌, discarded rule rest) refl

take_rule-ends : (go_on : Reader (Unit {0})) (rest : Bytes) → take_rule go_on 0 rest ≡ ok tt rest
unfolding take_rule
take_rule-ends go_on rest = refl

read_on :
    (m : Reader ℕ) {s t : Bytes} {n : ℕ} {r : Result (Unit {0})} (f : ℕ → Reader (Unit {0}))
    → m s ≡ ok n t
    → f n t ≡ r
    → (m >>= f) s ≡ r
read_on m f e g = rw e g

read_filters-rules_text :
    (fuel : ℕ) (rules : List Bytes) (rest : Bytes)
    → All IsRule rules
    → length rules < fuel
    → read_filters fuel (rules_text rules ++ rest) ≡ ok tt rest
unfolding read_filters rules_text
read_filters-rules_text zero rules rest h lt = absurd (omega arith)
read_filters-rules_text (suc fuel) [] rest h lt =
    read_on read_int32 (λ (n : ℕ). take_rule (read_filters fuel) n)
      (read_int32-write_int32 0 rest (omega arith)) (take_rule-ends (read_filters fuel) rest)
read_filters-rules_text (suc fuel) (rule ∷ rules) rest h lt =
    rw
      (
        append_assoc (write_int32 (length rule)) (rule ++ rules_text rules) rest,
        append_assoc rule (rules_text rules) rest,
      )
      (read_on read_int32 (λ (n : ℕ). take_rule (read_filters fuel) n)
        (read_int32-write_int32 (length rule) (rule ++ (rules_text rules ++ rest))
          (omega (arith, h.0)))
        (take_rule-drops (read_filters fuel) rule (rules_text rules ++ rest) h.0
          ∙ read_filters-rules_text fuel rules rest h.1 (omega arith)))

rules-fit : (rules : List Bytes) → length rules ≤ length (rules_text rules)
unfolding rules_text write_int32
rules-fit [] = omega arith
rules-fit (rule ∷ rules) =
    rw (length-append (write_int32 (length rule)) (rule ++ rules_text rules)) (
      rw (length-append rule (rules_text rules))
        (omega (arith, rules-fit rules, length-le_bytes 4 (length rule))))

-- recvFilterList passes over the rules of a client, each of 1 to 2^31-1 bytes, and the 0 behind
-- them, and leaves what follows.
pub recv_filter_list-rules_text :
    (rules : List Bytes) (rest : Bytes)
    → All IsRule rules
    → recv_filter_list (rules_text rules ++ rest) ≡ ok tt rest
unfolding recv_filter_list
recv_filter_list-rules_text rules rest h =
    read_filters-rules_text (suc (length (rules_text rules ++ rest))) rules rest h
      (rw (length-append (rules_text rules) rest) (omega (arith, rules-fit rules)))
