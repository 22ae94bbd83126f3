-- ===== src/Client/Info.antt =====
-- What the client tells of an entry (client-open.go): flistInfo and wireModeToFS.
use go_rsyncfs.Base.{
  ℕ, ◌+◌, ◌^◌, ◌<◌, ◌≡◌, refl, bit_and, bit_or, Bool, true, Bool-cases, inl, inr, ◌&&◌, Bytes,
  length, ◌==◌, if◌then◌else◌, arith,
}
use go_rsyncfs.Base.Bits.{bit_and_mask, holds_below, holds_below-at}
use go_rsyncfs.Flist.Entry.{has_flag, file_type, is_symlink, Entry}
use go_rsyncfs.Sender.FileList.{mode_type, mode_to_wire}

-- The bits of the type in a fs.FileMode.
unfoldable pub fs_type : ℕ → ℕ
fs_type wire_type =
    if wire_type == 0x4000
    then 2 ^ 31
    else if wire_type == 0xa000
    then 2 ^ 27
    else if wire_type == 0x2000
    then 2 ^ 26 + 2 ^ 21
    else if wire_type == 0x6000
    then 2 ^ 26
    else if wire_type == 0x1000
    then 2 ^ 25
    else if wire_type == 0xc000
    then 2 ^ 24
    else 0

-- `mode & 0o7777`, and its Perm.
unfoldable pub wire_mode_to_fs : ℕ → ℕ
unfolding fs_type
wire_mode_to_fs mode = bit_or (fs_type (file_type mode)) (bit_and (bit_and mode 0xfff) 0x1ff)

pub record FlistFileInfo : Type 0 where
  pub name : Bytes
  pub mode : ℕ
  pub size : ℕ
  pub mod_unix : ℕ
  pub mod_nanosecond : ℕ

-- The size of a link is the length of its target.
unfoldable pub flist_info : Bytes → Entry → FlistFileInfo
flist_info name e = record {
  name = name;
  mode = wire_mode_to_fs e.mode;
  size = if is_symlink e.mode then length e.link_target else e.size;
  mod_unix = e.mtime;
  mod_nanosecond = e.mod_nsec;
}

-- The type that is kept of a fs.FileMode: a directory, a link, or else a regular file.
abbrev pub kept_type : ℕ → ℕ
kept_type mode =
    if has_flag mode 31 then 2 ^ 31 else if bit_and mode mode_type == 2 ^ 27 then 2 ^ 27 else 0

perm_kept : ℕ → Bool
perm_kept perm =
    wire_mode_to_fs (bit_or perm 0x4000) == bit_or (2 ^ 31) perm
    && (wire_mode_to_fs (bit_or perm 0xa000) == bit_or (2 ^ 27) perm
        && wire_mode_to_fs (bit_or perm 0x8000) == bit_or 0 perm)

perm_table : holds_below perm_kept 512 ≡ true
unfolding holds_below perm_kept wire_mode_to_fs file_type
perm_table = refl

three_equal :
    (a b c d e f : ℕ) → (a == b) && ((c == d) && (e == f)) ≡ true → (a ≡ b) × ((c ≡ d) × (e ≡ f))
three_equal a b c d e f h = ground arith

-- A mode that goes over the wire keeps its permissions, and its type as far as the wire has one.
pub wire_mode_to_fs-mode_to_wire :
    (mode : ℕ) → wire_mode_to_fs (mode_to_wire mode) ≡ bit_or (kept_type mode) (bit_and mode 0x1ff)
unfolding mode_to_wire perm_kept
wire_mode_to_fs-mode_to_wire mode =
    let perm = bit_and mode 0x1ff in
    let low : bit_and mode 0x1ff < 512 = omega (arith, bit_and_mask 9 mode) in
    let (dir, (link, file)) =
      three_equal _ _ _ _ _ _ (holds_below-at perm_kept 512 (bit_and mode 0x1ff) perm_table low) in
    elim (Bool-cases (has_flag mode 31)) [
      | inl a ↦ rw a dir
      | inr b ↦ elim (Bool-cases (bit_and mode mode_type == 2 ^ 27)) [
        | inl c ↦ rw (b, c) link
        | inr d ↦ rw (b, d) file
      ]
    ]
