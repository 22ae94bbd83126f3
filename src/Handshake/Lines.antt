-- ===== src/Handshake/Lines.antt =====
-- Lines, the compat flags and the version exchange between two sides.
use go_rsyncfs.Base.{
  ℕ, ◌%◌, ◌^◌, ◌<◌, ◌≡◌, ap, sym, ◌∙◌, false, Bool-cases, inl, inr, ltb, min, [], ◌∷◌, ◌++◌,
  append_assoc, append-nil, Bytes, ◌==◌, All, arith, if◌then◌else◌,
}
use go_rsyncfs.Io.{ok}
use go_rsyncfs.Wire.Fixed.RoundTrip.{read_int32-write_int32}
use go_rsyncfs.Wire.Var.RoundTrip.{read_varint-write_varint}
use go_rsyncfs.Handshake.{
  read_line_from, read_line, write_line, read_compat_flags, write_compat_flags, exchange_version,
}

pub read_line_from-append :
    (buf s rest : Bytes)
    → All (λ b. b == b'\n' ≡ false) s
    → read_line_from buf (s ++ (b'\n' ∷ rest)) ≡ ok (buf ++ s) rest
unfolding read_line_from
read_line_from-append buf [] rest v = ap (λ (x : Bytes). ok x rest) (sym (append-nil buf))
read_line_from-append buf (b ∷ s) rest v = rw v.0 (
    read_line_from-append (buf ++ (b ∷ [])) s rest v.1
    ∙ ap (λ (x : Bytes). ok x rest) (append_assoc buf (b ∷ []) s))

-- readLine returns the line that writeLine wrote, if it has no newline in it, and leaves the rest.
pub read_line-write_line :
    (s rest : Bytes)
    → All (λ b. b == b'\n' ≡ false) s
    → read_line ((write_line s).0 ++ rest) ≡ ok s rest
unfolding read_line write_line
read_line-write_line s rest v =
    rw (append_assoc s (b'\n' ∷ []) rest) (read_line_from-append [] s rest v)

-- ReadCompatFlags returns the flags that WriteCompatFlags wrote from version 30 on, and 0 before it,
-- where nothing is written.
pub read_compat_flags-write_compat_flags :
    (flags version : ℕ) (rest : Bytes)
    → flags < 2 ^ 32
    → read_compat_flags version (write_compat_flags flags version ++ rest)
      ≡ ok (if ltb version 30 then 0 else flags) rest
unfolding read_compat_flags write_compat_flags
read_compat_flags-write_compat_flags flags version rest h = elim (Bool-cases (ltb version 30)) [
  | inl old ↦ rw old
  | inr new ↦ rw new (
      read_varint-write_varint (flags % 2 ^ 32) rest (omega arith)
      ∙ ap (λ (x : ℕ). ok x rest) (omega arith))
]

-- Each of two sides that exchange versions gets the lower one.
pub exchange_version-min :
    (ours theirs : ℕ) (rest : Bytes)
    → ours < 2 ^ 31
    → theirs < 2 ^ 31
    → (exchange_version ours).1 ((exchange_version theirs).0 ++ rest) ≡ ok (min ours theirs) rest
unfolding exchange_version
exchange_version-min ours theirs rest h k =
    rw (read_int32-write_int32 theirs rest (omega arith)) (ap (λ (x : ℕ). ok x rest) (ground arith))
