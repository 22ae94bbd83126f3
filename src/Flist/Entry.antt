-- ===== src/Flist/Entry.antt =====
-- The entries of protocol/flist.go, the settings that its reader and its writer share, and the
-- transmit flags of protocol/constants.go. A flag is its position: `1 << k` is `2 ^ k`.
use go_rsyncfs.Base.{
  ℕ, zero, suc, ◌^◌, bit_and, bit_or, Bool, true, false, not, ◌||◌, [], ◌∷◌, Bytes, ◌==◌,
  if◌then◌else◌,
}

abbrev pub max_path_len : ℕ
max_path_len = 4096

abbrev pub xmit_top_dir : ℕ
xmit_top_dir = 0

abbrev pub xmit_same_mode : ℕ
xmit_same_mode = 1

abbrev pub xmit_extended_flags : ℕ
xmit_extended_flags = 2

abbrev pub xmit_same_uid : ℕ
xmit_same_uid = 3

abbrev pub xmit_same_gid : ℕ
xmit_same_gid = 4

abbrev pub xmit_same_name : ℕ
xmit_same_name = 5

abbrev pub xmit_long_name : ℕ
xmit_long_name = 6

abbrev pub xmit_same_time : ℕ
xmit_same_time = 7

-- Also the bit of XmitNoContentDir.
abbrev pub xmit_same_rdev_major : ℕ
xmit_same_rdev_major = 8

abbrev pub xmit_no_content_dir : ℕ
xmit_no_content_dir = 8

abbrev pub xmit_hlinked : ℕ
xmit_hlinked = 9

-- Also the bit of XmitUserNameFollows.
abbrev pub xmit_same_dev_pre30 : ℕ
xmit_same_dev_pre30 = 10

abbrev pub xmit_user_name_follows : ℕ
xmit_user_name_follows = 10

-- Also the bit of XmitRdevMinor8Pre30.
abbrev pub xmit_group_name_follows : ℕ
xmit_group_name_follows = 11

abbrev pub xmit_rdev_minor8_pre30 : ℕ
xmit_rdev_minor8_pre30 = 11

abbrev pub xmit_hlink_first : ℕ
xmit_hlink_first = 12

abbrev pub xmit_mod_nsec : ℕ
xmit_mod_nsec = 13

abbrev pub xmit_same_atime : ℕ
xmit_same_atime = 14

-- `xflags&flag != 0`, and `if c { xflags |= flag }`.
unfoldable pub has_flag : ℕ → ℕ → Bool
has_flag xflags k = not (bit_and xflags (2 ^ k) == 0)

unfoldable pub set_if : Bool → ℕ → ℕ → ℕ
set_if c k xflags = if c then bit_or xflags (2 ^ k) else xflags

-- `mode & 0o170000`
unfoldable pub file_type : ℕ → ℕ
file_type mode = bit_and mode 0xf000

unfoldable pub is_dir : ℕ → Bool
is_dir mode = file_type mode == 0x4000

unfoldable pub is_reg : ℕ → Bool
is_reg mode = file_type mode == 0x8000

unfoldable pub is_symlink : ℕ → Bool
is_symlink mode = file_type mode == 0xa000

unfoldable pub is_device : ℕ → Bool
is_device mode = file_type mode == 0x2000 || file_type mode == 0x6000

pub record Entry : Type 0 where
  pub name : Bytes
  pub mode : ℕ
  pub size : ℕ
  pub mtime : ℕ
  pub mod_nsec : ℕ
  pub atime : ℕ
  pub uid : ℕ
  pub gid : ℕ
  pub user_name : Bytes
  pub group_name : Bytes
  pub rdev_major : ℕ
  pub rdev_minor : ℕ
  pub link_target : Bytes
  pub hlink_ndx : ℕ
  pub nlink : ℕ
  pub dev : ℕ
  pub ino : ℕ
  pub checksum : Bytes
  pub top_dir : Bool
  pub no_content_dir : Bool

-- `&FlistEntry{}`
abbrev pub empty_entry : Entry
empty_entry = record {
  name = [];
  mode = 0;
  size = 0;
  mtime = 0;
  mod_nsec = 0;
  atime = 0;
  uid = 0;
  gid = 0;
  user_name = [];
  group_name = [];
  rdev_major = 0;
  rdev_minor = 0;
  link_target = [];
  hlink_ndx = 0;
  nlink = 0;
  dev = 0;
  ino = 0;
  checksum = [];
  top_dir = false;
  no_content_dir = false;
}

-- The settings. Those of FlistReader and FlistWriter have the same fields.
pub record Settings : Type 0 where
  pub version : ℕ
  pub varint_flist_flags : Bool
  pub has_atimes : Bool
  pub has_crtimes : Bool
  pub preserve_uid : Bool
  pub preserve_gid : Bool
  pub preserve_devices : Bool
  pub preserve_links : Bool
  pub preserve_hardlinks : Bool
  pub always_checksum : Bool

-- As NewFlistReader and NewFlistWriter set them.
abbrev pub new_settings : ℕ → Bool → Settings
new_settings version varint_flist_flags = record {
  version = version;
  varint_flist_flags = varint_flist_flags;
  has_atimes = false;
  has_crtimes = false;
  preserve_uid = true;
  preserve_gid = true;
  preserve_devices = true;
  preserve_links = true;
  preserve_hardlinks = true;
  always_checksum = false;
}

-- The loop of commonPrefixLen over at most `m` bytes.
unfoldable pub common_prefix : ℕ → Bytes → Bytes → ℕ
common_prefix zero a b = 0
common_prefix (suc m) [] b = 0
common_prefix (suc m) (x ∷ a) [] = 0
common_prefix (suc m) (x ∷ a) (y ∷ b) =
    let more = common_prefix m a b in if not (x == y) then 0 else suc more

unfoldable pub common_prefix_len : Bytes → Bytes → ℕ
unfolding common_prefix
common_prefix_len a b = common_prefix 255 a b
