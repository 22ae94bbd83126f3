-- ===== src/Wire/Var/RoundTrip.antt =====
-- ReadVarint and ReadVarlong read back what WriteVarint and WriteVarlong wrote.
use go_rsyncfs.Base.{
  ℕ, zero, suc, ◌+◌, ◌-◌, ◌≤◌, ◌<◌, ◌≡◌, refl, sym, ap, ◌∙◌, [], ◌∷◌, ◌++◌, Bytes, length, take,
  length-take, drop, length-drop, take-append-drop, append_assoc, arith,
}
use go_rsyncfs.Io.{ok, err, eof, read_full, read_byte, bind}
use go_rsyncfs.Io.Laws.{read_full-append}
use go_rsyncfs.Wire.Fixed.{IsU32, IsU64}
use go_rsyncfs.Wire.Le.{le_value}
use go_rsyncfs.Wire.Var.{
  extra_of, write_varint, read_varint, read_varint_extra, write_varlong, read_varlong,
  read_varlong_extra, read_varlong_head,
}
use go_rsyncfs.Wire.Var.Table.{extra_of_small}
use go_rsyncfs.Wire.Var.Shape.{Encoded, encode-trim-Encoded, last_byte}

varint_body :
    (first e : ℕ) (body rest : Bytes)
    → length body ≡ e
    → e ≤ 4
    → read_varint_extra first e (body ++ rest)
      ≡ ok (le_value (take 4 (body ++ (last_byte first e ∷ [])))) rest
unfolding read_varint_extra le_value
varint_body first zero [] rest len h = ground arith
varint_body first zero (b ∷ body) rest len h = absurd (omega arith)
varint_body first (suc e) body rest len h = ground (arith, read_full-append (suc e) body rest len)

read_varint-Encoded :
    {x : ℕ} {s : Bytes} (rest : Bytes) → Encoded 4 1 x s → read_varint (s ++ rest) ≡ ok x rest
unfolding read_varint read_byte
read_varint-Encoded rest t =
    rw (t.shape, read_varint, read_byte)
      (varint_body t.first _ t.body rest (omega (arith, t.body_length)) (omega (arith, t.fits))
        ∙ ap (λ (v : ℕ). ok v rest) t.value)

-- ReadVarint reads back every int32 that WriteVarint wrote, and leaves what follows.
pub read_varint-write_varint :
    (x : ℕ) (rest : Bytes) → IsU32 x → read_varint (write_varint x ++ rest) ≡ ok x rest
unfolding write_varint
read_varint-write_varint x rest h =
    read_varint-Encoded rest
      (encode-trim-Encoded 4 1 x (omega arith) (omega arith) (omega arith) (omega arith))

varlong_body :
    (min_bytes first e : ℕ) (low buf rest : Bytes)
    → length buf ≡ e
    → min_bytes + e ≤ 9
    → read_varlong_extra min_bytes first low e (buf ++ rest)
      ≡ ok (le_value (take 8 (low ++ (buf ++ (last_byte first e ∷ []))))) rest
unfolding read_varlong_extra
varlong_body min_bytes first zero low [] rest len h = refl
varlong_body min_bytes first zero low (b ∷ buf) rest len h = absurd (omega arith)
varlong_body min_bytes first (suc e) low buf rest len h =
    ground (arith, read_full-append (suc e) buf rest len)

read_varlong-Encoded :
    (min_bytes : ℕ) {x : ℕ} {s : Bytes} (rest : Bytes)
    → 0 < min_bytes
    → Encoded 8 min_bytes x s
    → read_varlong min_bytes (s ++ rest) ≡ ok x rest
unfolding read_varlong
read_varlong-Encoded min_bytes {x} rest pos t =
    let low = take (min_bytes - 1) t.body in
    let buf = drop (min_bytes - 1) t.body in
    let joined : low ++ buf ≡ t.body = take-append-drop (min_bytes - 1) t.body in
    let len : length (t.first ∷ low) ≡ min_bytes =
      omega (arith, t.body_length, length-take (min_bytes - 1) t.body) in
    let len_buf : length buf ≡ extra_of t.first =
      omega (arith, t.body_length, length-drop (min_bytes - 1) t.body) in
    let whole : t.first ∷ (t.body ++ rest) ≡ (t.first ∷ low) ++ (buf ++ rest) =
      ap (◌∷◌ t.first) (ap (λ (b : Bytes). b ++ rest) (sym joined) ∙ append_assoc low buf rest) in
    rw (t.shape) (
      ap (λ (b : Bytes). bind (read_full min_bytes b) (read_varlong_head min_bytes)) whole
      ∙ ap (λ r. bind r (read_varlong_head min_bytes))
          (read_full-append min_bytes (t.first ∷ low) (buf ++ rest) len)
      ∙ varlong_body min_bytes t.first _ low buf rest len_buf (omega (arith, t.fits))
      ∙ ap (λ (v : ℕ). ok v rest)
          (ap (λ (b : Bytes). le_value (take 8 b))
              (sym (append_assoc low buf _)
                ∙ ap (λ (b : Bytes). b ++ (last_byte t.first (extra_of t.first) ∷ [])) joined)
            ∙ t.value))

-- ReadVarlong reads back every int64 that WriteVarlong wrote with the same least length, 3 to 8.
pub read_varlong-write_varlong :
    (min_bytes x : ℕ) (rest : Bytes)
    → 3 ≤ min_bytes
    → min_bytes ≤ 8
    → IsU64 x
    → read_varlong min_bytes (write_varlong x min_bytes ++ rest) ≡ ok x rest
unfolding write_varlong
read_varlong-write_varlong min_bytes x rest lo hi h =
    read_varlong-Encoded min_bytes rest (omega arith)
      (encode-trim-Encoded 8 min_bytes x (omega arith) (omega arith) (omega arith) (omega arith))

-- A byte below 0x80 stands for itself.
pub read_varint_small : (b : ℕ) (s : Bytes) → b < 128 → read_varint (b ∷ s) ≡ ok b s
unfolding read_varint read_byte read_varint_extra
read_varint_small b s h = rw (extra_of_small b h)

pub read_varint_nothing : read_varint [] ≡ err eof []
unfolding read_varint read_byte
read_varint_nothing = refl
