-- ===== src/Client/Password.antt =====
-- The digest of a password and a challenge (client.go PasswordAuth). MD4 and MD5 are parameters.
use go_rsyncfs.Base.{◌++◌, Bytes, Option, none, some, if◌then◌else◌}
use go_rsyncfs.Greet.{md4_name, md5_name, same_name}

module _ (md4_sum md5_sum : Bytes → Bytes) where
  unfoldable pub compute_auth_hash : Bytes → Bytes → Bytes → Option Bytes
  compute_auth_hash digest password challenge =
      if same_name digest md4_name
      then some (md4_sum (password ++ challenge))
      else if same_name digest md5_name
      then some (md5_sum (password ++ challenge))
      else none

  unfoldable pub password_auth : Bytes → Bytes → Bytes → Option Bytes
  password_auth password digest challenge = compute_auth_hash digest password challenge
