-- ===== src/Handshake/Algorithms.antt =====
-- The algorithms that NegotiateAlgorithms settles on with a peer that runs it too.
use go_rsyncfs.Base.{
  ◌≤◌, ◌≡◌, ◌≢◌, refl, sym, ap, ◌∙◌, true, false, Bool-cases, inl, inr, List, [], ◌∷◌, ◌++◌,
  append_assoc, append-nil, Bytes, none, some, length, All,
}
use go_rsyncfs.Greet.Agree.{first_common-nil}
use go_rsyncfs.Io.{ok, Output, wrote, ◌>>>◌}
use go_rsyncfs.Wire.Vstring.{write_vstring}
use go_rsyncfs.Wire.Vstring.RoundTrip.{read_vstring-write_vstring, write_vstring-ok}
use go_rsyncfs.Greet.{first_common}
use go_rsyncfs.Handshake.{
  join, is_space, field_so_far, fields_from, fields, pick_one, any_names, offer, settle,
  after_offer, negotiate_algorithms,
}

-- A name that `strings.Fields` keeps whole.
abbrev pub IsName : Bytes → Type 0
IsName d = (d ≢ []) × All (λ b. is_space b ≡ false) d

fields_from_word :
    (current d s : Bytes)
    → All (λ b. is_space b ≡ false) d
    → fields_from current (d ++ s) ≡ fields_from (current ++ d) s
unfolding fields_from
fields_from_word current [] s v = ap (λ (c : Bytes). fields_from c s) (sym (append-nil current))
fields_from_word current (b ∷ d) s v = rw v.0 (
    fields_from_word (current ++ (b ∷ [])) d s v.1
    ∙ ap (λ (c : Bytes). fields_from c s) (append_assoc current (b ∷ []) d))

word_alone : (d : Bytes) → d ≢ [] → field_so_far d ≡ d ∷ []
word_alone [] v = absurd (v refl)
word_alone (b ∷ d) v = refl

pub fields-join : (names : List Bytes) → All IsName names → fields (join names) ≡ names
unfolding fields join fields_from is_space
fields-join [] v = refl
fields-join (d ∷ []) v =
    ap (fields_from []) (sym (append-nil d)) ∙ fields_from_word [] d [] v.0.1 ∙ word_alone d v.0.0
fields-join (d ∷ e ∷ names) v =
    fields_from_word [] d (b' ' ∷ join (e ∷ names)) v.0.1
    ∙ rw (word_alone d v.0.0) (ap (λ (x : List Bytes). d ∷ x) (fields-join (e ∷ names) v.1))

-- Names that fit a vstring.
abbrev pub IsOffer : List Bytes → Type 0
IsOffer names = All IsName names × (length (join names) ≤ 0x7fff)

>>>-wrote : (o p : Output) → o.1 ≡ none → p.1 ≡ none → o >>> p ≡ wrote (o.0 ++ p.0)
>>>-wrote (s, none) (t, none) e d = refl
>>>-wrote (s, none) (t, some x) e d = cc
>>>-wrote (s, some x) p e d = cc

offer-sent :
    (names more : List Bytes)
    → any_names more ≡ true
    → IsOffer names
    → IsOffer more
    → offer names more ≡ wrote ((write_vstring (join names)).0 ++ (write_vstring (join more)).0)
unfolding offer
offer-sent names more sent v w = rw sent (
    >>>-wrote (write_vstring (join names)) (write_vstring (join more))
      (write_vstring-ok (join names) v.1) (write_vstring-ok (join more) w.1))

offer-alone :
    (names more : List Bytes)
    → any_names more ≡ false
    → IsOffer names
    → offer names more ≡ wrote (write_vstring (join names)).0
unfolding offer
offer-alone names more not_sent v = rw not_sent (
    >>>-wrote (write_vstring (join names)) (wrote []) (write_vstring-ok (join names) v.1) refl
    ∙ ap wrote (append-nil (write_vstring (join names)).0))

pick_one-join :
    (mine theirs : List Bytes)
    → IsOffer theirs
    → pick_one mine (join theirs) ≡ first_common mine theirs
unfolding pick_one
pick_one-join mine theirs v = ap (first_common mine) (fields-join theirs v.0)

none_picked : (names server : List Bytes) → any_names names ≡ false → first_common names server ≡ []
none_picked [] server e = first_common-nil server
none_picked (d ∷ names) server e = cc

pub negotiate_algorithms-first_common :
    (mine theirs my_compressions their_compressions : List Bytes) (rest : Bytes)
    → IsOffer mine
    → IsOffer theirs
    → IsOffer my_compressions
    → IsOffer their_compressions
    → any_names my_compressions ≡ any_names their_compressions
    → (negotiate_algorithms mine my_compressions).1
        ((negotiate_algorithms theirs their_compressions).0 ++ rest)
      ≡ ok
          (record {
            checksum = first_common mine theirs;
            compress = first_common my_compressions their_compressions;
          })
          rest
unfolding negotiate_algorithms settle after_offer
negotiate_algorithms-first_common mine theirs my_compressions their_compressions rest m t mc tc
      same =
    elim (Bool-cases (any_names their_compressions)) [
      | inl sent ↦ rw (
        offer-sent theirs their_compressions sent t tc,
        offer-sent mine my_compressions (same ∙ sent) m mc,
        append_assoc,
        read_vstring-write_vstring (join theirs) _ t.1,
        same,
        sent,
        read_vstring-write_vstring (join their_compressions) _ tc.1,
        pick_one-join mine theirs t,
        pick_one-join my_compressions their_compressions tc,
      )
      | inr not_sent ↦ rw (
        offer-alone theirs their_compressions not_sent t,
        offer-alone mine my_compressions (same ∙ not_sent) m,
        read_vstring-write_vstring (join theirs) _ t.1,
        same,
        not_sent,
        pick_one-join mine theirs t,
        none_picked my_compressions their_compressions (same ∙ not_sent),
      )
    ]
