-- ===== src/Io.antt =====
-- An io.Reader as the bytes that it will deliver before it ends, and io.ReadFull over it
-- (protocol/args.go `readOne`, protocol/flist.go `readByte`). Every outcome keeps the bytes that
-- are left. An io.Writer that takes every write is the list of the bytes written.
pub mod Laws
pub mod Tame
pub mod Exchange
use go_rsyncfs.Base.{ℕ, zero, suc, List, [], ◌∷◌, ◌++◌, Option, none, some, Bytes}

-- `panic` is a Go run-time panic; `out_of_fuel` is no Go value: a loop of the model met its fuel.
pub data Error : Type 0 where
  eof unexpected_eof short_write payload_too_large panic out_of_fuel : Error
  invalid_count invalid_block_length zero_block_length count_too_large : Error
  invalid_checksum_length : Error
  name_overflow hlink_out_of_range invalid_mode root_not_dir : Error
  invalid_index unexpected_flist_eof transfer_refused invalid_packet : Error
  not_regular open_failed checksum_mismatch invalid_filter_length invalid_greeting : Error
  invalid_base64 invalid_auth_response : Error
  version_refused unknown_module chdir_failed auth_failed auth_missing : Error
  server_error server_exited : Bytes → Error
  unexpected_msg : ℕ → Error

pub data Result {ℓ} (A : Type ℓ) : Type ℓ where
  ok : A → Bytes → Result A
  err : Error → Bytes → Result A

abbrev pub Reader {ℓ} : Type ℓ → Type ℓ
Reader A = Bytes → Result A

abbrev pub bind {ℓ κ} : {A : Type ℓ} {B : Type κ} → Result A → (A → Reader B) → Result B
bind (ok a s) f = f a s
bind (err e s) f = err e s

infixl 5 ◌>>=◌
abbrev pub ◌>>=◌ {ℓ κ} : {A : Type ℓ} {B : Type κ} → Reader A → (A → Reader B) → Reader B
◌>>=◌ m f s = bind (m s) f

abbrev pub return {ℓ} : {A : Type ℓ} → A → Reader A
return a s = ok a s

abbrev pub fail {ℓ} : {A : Type ℓ} → Error → Reader A
fail e s = err e s

-- The first `n` bytes and what follows them.
unfoldable pub split_at : ℕ → Bytes → Option (Bytes × Bytes)
split_at zero s = some ([], s)
split_at (suc n) [] = none
split_at (suc n) (b ∷ s) = elim (split_at n s) [ none ↦ none | some (p, r) ↦ some (b ∷ p, r) ]

-- io.EOF if nothing was read, else io.ErrUnexpectedEOF.
abbrev pub short_read : Bytes → Error
short_read [] = eof
short_read (b ∷ s) = unexpected_eof

-- io.ReadFull into a buffer of `n` bytes.
unfoldable pub read_full : ℕ → Reader Bytes
unfolding split_at
read_full n s = elim (split_at n s) [ some (p, r) ↦ ok p r | none ↦ err (short_read s) [] ]

-- io.ReadFull into one byte.
unfoldable pub read_byte : Reader ℕ
read_byte [] = err eof []
read_byte (b ∷ s) = ok b s

-- What a function that writes has written when it returns, and its error.
abbrev pub Output : Type 0
Output = Bytes × Option Error

abbrev pub wrote : Bytes → Output
wrote s = (s, none)

abbrev pub refused : Error → Output
refused e = ([], some e)

-- One write after another, unless the first one failed.
infixl 5 ◌>>>◌
abbrev pub ◌>>>◌ : Output → Output → Output
(s, none) >>> (t, e) = (s ++ t, e)
(s, some e) >>> (t, d) = (s, some e)
