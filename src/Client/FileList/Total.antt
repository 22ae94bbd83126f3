-- ===== src/Client/FileList/Total.antt =====
-- readFileList ends on every input.
use go_rsyncfs.Base.{
  ℕ, zero, suc, ◌≤◌, ◌<◌, ◌≡◌, ◌≢◌, ◌⊎◌, refl, Bool, true, false, Bool-cases, inl, inr, not, ◌&&◌,
  Bytes, length, length-append, ap, Option-cases, leb, ltb, ◌==◌, arith,
}
use go_rsyncfs.Io.{Error, eof, out_of_fuel, Result, ok, err, Reader, bind, split_at}
use go_rsyncfs.Io.Laws.{split_at-shape}
use go_rsyncfs.Io.Tame.{
  is_fuel, Tame, Tame-weaken, bind-Tame, IsTame, IsStrict, if-IsStrict, bind-IsTame, return-IsTame,
  if-IsTame, read_byte-IsTame,
}
use go_rsyncfs.Wire.Fixed.Tame.{read_int32-IsTame, read_int32-IsStrict}
use go_rsyncfs.Wire.Var.Tame.{read_varint-IsStrict}
use go_rsyncfs.Flist.Read.{FlistReader, new_flist_reader, read_entry}
use go_rsyncfs.Flist.Tame.{read_entry-IsStrict}
use go_rsyncfs.Flist.Read.Setters.{set_preserve_hardlinks}
use go_rsyncfs.Client.FileList.{
  Session, list_end, read_entries, read_id_varint, discard, skip_id_name, read_ids, read_id_list,
  read_flist_trailer, read_file_list,
}

-- Not the fuel's error.
abbrev Answers {ℓ} : {A : Type ℓ} → Result A → Type 0
Answers (ok a t) = Unit {0}
Answers (err e t) = is_fuel e ≡ false

bind-Answers {ℓ κ} :
    {A : Type ℓ} {B : Type κ}
    → (o : Result A) (f : A → Reader B) → Answers o
    → ((a : A) (t : Bytes) → Answers (f a t))
    → Answers (bind o f)
bind-Answers (ok a t) f h k = k a t
bind-Answers (err e t) f h k = h

Tame-Answers {ℓ} : {A : Type ℓ} → (s : Bytes) (o : Result A) → Tame s o → Answers o
Tame-Answers s (ok a t) h = tt
Tame-Answers s (err e t) h = h

result_cases {ℓ} :
    {A : Type ℓ}
    → (o : Result A)
    → ((a : A) × (t : Bytes) × (o ≡ ok a t)) ⊎ ((e : Error) × (t : Bytes) × (o ≡ err e t))
result_cases (ok a t) = inl (a, t, refl)
result_cases (err e t) = inr (e, t, refl)

list_end-Answers : (e : Error) (t : Bytes) → is_fuel e ≡ false → Answers (list_end e t)
unfolding list_end is_fuel
list_end-Answers eof t h = tt
list_end-Answers e t h = h

read_entries-Answers :
    (fuel : ℕ) (r : FlistReader) (s : Bytes) → length s < fuel → Answers (read_entries fuel r s)
unfolding read_entries
read_entries-Answers zero r s h = absurd (omega arith)
read_entries-Answers (suc fuel) r s h = elim (result_cases (read_entry r s)) [
  | inl (p, t, e) ↦
      let less : length t < length s = rw e at ((read_entry-IsStrict r).progress s) in
      rw (read_entries, e)
        (bind-Answers (read_entries fuel p.1 t) _ (read_entries-Answers fuel p.1 t (omega arith))
          (λ es u. tt))
  | inr (x, t, e) ↦
      let other : is_fuel x ≡ false = rw e at ((read_entry-IsStrict r).progress s) in
      rw (read_entries, e) (list_end-Answers x t other)
]

read_id_varint-IsStrict : (version : ℕ) → IsStrict (read_id_varint version)
unfolding read_id_varint
read_id_varint-IsStrict version =
    if-IsStrict (leb 30 version) _ _ read_varint-IsStrict read_int32-IsStrict

discard-IsTame : (n : ℕ) → IsTame (discard n)
unfolding discard is_fuel
discard-IsTame n = record {
  outcome = λ s. elim (Option-cases (split_at n s)) [
    | inl none_left ↦ rw (discard, none_left) refl
    | inr ((p, t), e) ↦
        let split = (split_at-shape n s p t e).1 in
        rw (discard, e) (omega (arith, ap length split, length-append {0} p t))
  ];
}

skip_id_name-IsTame : IsTame skip_id_name
unfolding skip_id_name
skip_id_name-IsTame =
    bind-IsTame _ _ read_byte-IsTame
      (λ n. if-IsTame (n == 0) _ _ (return-IsTame tt) (discard-IsTame n))

read_ids-Tame : (fuel version : ℕ) (s : Bytes) → length s < fuel → Tame s (read_ids fuel version s)
unfolding read_ids
read_ids-Tame zero version s h = absurd (omega arith)
read_ids-Tame (suc fuel) version s h = elim (result_cases (read_id_varint version s)) [
  | inl (id, t, e) ↦
      let less : length t < length s = rw e at ((read_id_varint-IsStrict version).progress s) in
      elim (Bool-cases (id == 0)) [
        | inl end ↦ rw (read_ids, e, end) (omega arith)
        | inr more ↦ elim (result_cases (skip_id_name t)) [
          | inl (name, u, d) ↦
              let fewer : length u ≤ length t = rw d at (skip_id_name-IsTame.outcome t) in
              rw (read_ids, e, more, d)
                (Tame-weaken s u (read_ids fuel version u) (omega arith)
                  (read_ids-Tame fuel version u (omega arith)))
          | inr (x, u, d) ↦
              let other : is_fuel x ≡ false = rw d at (skip_id_name-IsTame.outcome t) in
              rw (read_ids, e, more, d) other
        ]
      ]
  | inr (x, t, e) ↦
      let other : is_fuel x ≡ false = rw e at ((read_id_varint-IsStrict version).progress s) in
      rw (read_ids, e) other
]

read_id_list-IsTame : (c : Session) (present : Bool) → IsTame (read_id_list c present)
unfolding read_id_list
read_id_list-IsTame c true = record {
  outcome = λ s.
      bind-Tame s (read_ids (suc (length s)) c.version s) _
        (read_ids-Tame (suc (length s)) c.version s (omega arith))
        (λ end. if-IsTame c.id0_names _ _ skip_id_name-IsTame (return-IsTame tt));
}
read_id_list-IsTame c false = return-IsTame tt

read_flist_trailer-IsTame : (c : Session) → IsTame (read_flist_trailer c)
unfolding read_flist_trailer
read_flist_trailer-IsTame c = bind-IsTame _ _ (read_id_list-IsTame c true) (λ uids.
    bind-IsTame _ _ (read_id_list-IsTame c true) (λ gids.
      if-IsTame (not c.varint_flist && ltb c.version 30) _ _
        (bind-IsTame _ _ read_int32-IsTame (λ io_error. return-IsTame tt)) (return-IsTame tt)))

read_file_list-Answers : (c : Session) (s : Bytes) → Answers (read_file_list c s)
unfolding read_file_list
read_file_list-Answers c s =
    bind-Answers
      (read_entries (suc (length s))
        (set_preserve_hardlinks false (new_flist_reader c.version c.varint_flist)) s)
      _ (read_entries-Answers (suc (length s)) _ s (omega arith))
      (λ es t.
        bind-Answers (read_flist_trailer c t) _
          (Tame-Answers t (read_flist_trailer c t) ((read_flist_trailer-IsTame c).outcome t))
          (λ end u. tt))

-- On every input readFileList comes to an end, with entries, with an error or with a panic: the loops
-- over the entries and over the ids do not run on.
pub read_file_list-Ends : (c : Session) (s t : Bytes) → read_file_list c s ≢ err out_of_fuel t
unfolding is_fuel
read_file_list-Ends c s t h = clash (rw h at (read_file_list-Answers c s))
  where
    clash : true ≡ false → ⊥
    clash e = cc
