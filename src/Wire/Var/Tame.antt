-- ===== src/Wire/Var/Tame.antt =====
-- ReadVarint and ReadVarlong never give more bytes than they got.
use go_rsyncfs.Base.{ℕ, zero, suc, refl, [], ◌∷◌, Bytes}
use go_rsyncfs.Io.{fail, panic}
use go_rsyncfs.Io.Tame.{
  IsTame, IsStrict, bind-IsStrict, read_byte-IsStrict, is_fuel, bind-IsTame, return-IsTame,
  fail-IsTame, if-IsTame, read_full-IsTame, read_byte-IsTame,
}
use go_rsyncfs.Wire.Var.{
  extra_of, read_varint, read_varint_extra, read_varlong, read_varlong_head, read_varlong_extra,
}

panic-IsTame : IsTame {A = ℕ} (fail panic)
unfolding is_fuel
panic-IsTame = fail-IsTame panic refl

ruleset tame =
    (bind-IsTame, return-IsTame, if-IsTame, read_full-IsTame, read_byte-IsTame, panic-IsTame)

read_varint_extra-IsTame : (ch extra : ℕ) → IsTame (read_varint_extra ch extra)
unfolding read_varint_extra
read_varint_extra-IsTame ch zero = return-IsTame ch
read_varint_extra-IsTame ch (suc extra) = search tame

pub read_varint-IsTame : IsTame read_varint
unfolding read_varint
read_varint-IsTame =
    bind-IsTame _ _ read_byte-IsTame (λ ch. read_varint_extra-IsTame ch (extra_of ch))

read_varlong_extra-IsTame :
    (min_bytes ch : ℕ) (low : Bytes) (extra : ℕ)
    → IsTame (read_varlong_extra min_bytes ch low extra)
unfolding read_varlong_extra
read_varlong_extra-IsTame min_bytes ch low zero = return-IsTame _
read_varlong_extra-IsTame min_bytes ch low (suc extra) = search tame

read_varlong_head-IsTame : (min_bytes : ℕ) (b : Bytes) → IsTame (read_varlong_head min_bytes b)
unfolding read_varlong_head
read_varlong_head-IsTame min_bytes [] = panic-IsTame
read_varlong_head-IsTame min_bytes (ch ∷ low) =
    read_varlong_extra-IsTame min_bytes ch low (extra_of ch)

pub read_varlong-IsTame : (min_bytes : ℕ) → IsTame (read_varlong min_bytes)
unfolding read_varlong
read_varlong-IsTame min_bytes =
    bind-IsTame _ _ (read_full-IsTame min_bytes) (λ b. read_varlong_head-IsTame min_bytes b)

pub read_varint-IsStrict : IsStrict read_varint
unfolding read_varint
read_varint-IsStrict =
    bind-IsStrict _ _ read_byte-IsStrict (λ ch. read_varint_extra-IsTame ch (extra_of ch))
