-- ===== src/Flist/Fields.antt =====
-- Each group of fields is read back from what was written, under the same flags.
use go_rsyncfs.Base.{
  ℕ, ◌+◌, ◌*◌, ◌/◌, ◌%◌, ◌^◌, ◌<◌, ◌≡◌, ◌⊎◌, refl, sym, ap, ◌∙◌, bit_and, bit_or, Bool, true, false,
  Bool-cases, inl, inr, not, ◌&&◌, ◌||◌, [], ◌∷◌, ◌++◌, append_assoc, Bytes, length, leb, ltb,
  ltb→lt, ◌==◌, if◌then◌else◌, arith,
}
use mathlib.Core.Path.{ap₂}
use go_rsyncfs.Base.Bits.{bit_or_comm, bit_or_shifted, bit_and_mask}
use go_rsyncfs.Io.{ok, return, read_full}
use go_rsyncfs.Io.Laws.{read_full-append}
use go_rsyncfs.Wire.Fixed.{IsU32, IsU64, is_neg32, write_int32, write_uint32, write_longint}
use go_rsyncfs.Wire.Fixed.RoundTrip.{
  read_int32-write_int32, read_uint32-write_uint32, read_longint-write_longint,
}
use go_rsyncfs.Wire.Var.{write_varint, write_varlong, read_varlong}
use go_rsyncfs.Wire.Var.RoundTrip.{read_varint-write_varint, read_varlong-write_varlong}
use go_rsyncfs.Flist.Entry.{is_dir}
use go_rsyncfs.Flist.Write.{
  is_nil, write_size, write_mtime, write_mod_nsec, write_mode, write_atime, write_id, pack_rdev,
  write_rdev, write_link, write_dev_ino, no_checksum, write_checksum,
}
use go_rsyncfs.Flist.Read.{
  read_size, read_mtime, read_mod_nsec, read_mode, read_atime, read_id, read_rdev, read_target,
  read_link, read_dev_ino,
}

pack_rdev-eq :
    (major minor : ℕ)
    → major < 2 ^ 24
    → minor < 2 ^ 8
    → pack_rdev major minor ≡ minor + major * 2 ^ 8
unfolding pack_rdev
pack_rdev-eq major minor h k =
    bit_or_comm (major * 2 ^ 8 % 2 ^ 32) (bit_and minor 0xff)
    ∙ ap (λ (t : ℕ). bit_or t (major * 2 ^ 8 % 2 ^ 32)) low
    ∙ ap (bit_or minor) whole
    ∙ bit_or_shifted 8 minor major k
  where
    low : bit_and minor 0xff ≡ minor
    low = omega (arith, bit_and_mask 8 minor)

    whole : major * 2 ^ 8 % 2 ^ 32 ≡ major * 2 ^ 8
    whole = omega arith

unpack_rdev :
    (major minor : ℕ)
    → major < 2 ^ 24
    → minor < 2 ^ 8
    → ◌≡◌ {A = ℕ × ℕ}
        (pack_rdev major minor / 2 ^ 8, bit_and (pack_rdev major minor) 0xff)
        (major, minor)
unpack_rdev major minor h k =
    ap₂ (λ (a b : ℕ). (a, b)) (omega (arith, pack_rdev-eq major minor h k))
      (omega (arith, pack_rdev-eq major minor h k, bit_and_mask 8 (pack_rdev major minor)))

target_read :
    (target rest : Bytes)
    → length target < 2 ^ 31
    → read_target (length target % 2 ^ 32) (target ++ rest) ≡ ok target rest
unfolding read_target
target_read [] rest h = refl
target_read (b ∷ target) rest h =
    let len = length (b ∷ target) in
    let whole : len % 2 ^ 32 ≡ len = omega arith in
    let some_bytes : (is_neg32 len || len == 0) ≡ false = ground arith in
    rw (whole, some_bytes) (read_full-append len (b ∷ target) rest refl)

short_pair :
    (version : ℕ) (same : Bool) (dev ino : ℕ) (rest : Bytes)
    → ltb version 26 ≡ true
    → IsU32 dev × IsU32 ino
    → read_dev_ino version same (write_dev_ino version same dev ino ++ rest)
      ≡ ok ((if leb 26 version && same then 0 else dev), ino) rest
unfolding read_dev_ino write_dev_ino
short_pair version same dev ino rest short (h, k) =
    let early : leb 26 version ≡ false = ground arith in
    let dev_word : dev % 2 ^ 32 ≡ dev = omega arith in
    let ino_word : ino % 2 ^ 32 ≡ ino = omega arith in
    rw (short, early, dev_word, ino_word, append_assoc (write_uint32 dev) (write_uint32 ino) rest)
      (rw (read_uint32-write_uint32 dev (write_uint32 ino ++ rest) h)
        (rw (read_uint32-write_uint32 ino rest k)))

long_pair :
    (version : ℕ) (same : Bool) (dev ino : ℕ) (rest : Bytes)
    → ltb version 26 ≡ false
    → IsU64 dev
    → IsU64 ino
    → read_dev_ino version same (write_dev_ino version same dev ino ++ rest)
      ≡ ok ((if leb 26 version && same then 0 else dev), ino) rest
unfolding read_dev_ino write_dev_ino
long_pair version true dev ino rest long h k =
    let late : leb 26 version ≡ true = ground arith in
    rw (long, late) (rw (read_longint-write_longint ino rest k))
long_pair version false dev ino rest long h k =
    let late : leb 26 version ≡ true = ground arith in
    rw (long, late, append_assoc (write_longint dev) (write_longint ino) rest)
      (rw (read_longint-write_longint dev (write_longint ino ++ rest) h)
        (rw (read_longint-write_longint ino rest k)))

-- The packed form of a device number has 24 bits for the major number and 8 for the minor.
abbrev pub IsRdev : ℕ → ℕ → ℕ → Type 0
IsRdev version major minor =
    IsU32 major × (IsU32 minor × (version < 28 → (major < 2 ^ 24) × (minor < 2 ^ 8)))

module _ (version : ℕ) (rest : Bytes) where
  pub read_size-write_size :
      (size : ℕ) → IsU64 size → read_size version (write_size version size ++ rest) ≡ ok size rest
  unfolding read_size write_size
  read_size-write_size size h = elim (Bool-cases (ltb version 30)) [
    | inl old ↦ rw old (read_longint-write_longint size rest h)
    | inr new ↦ rw new (read_varlong-write_varlong 3 size rest (omega arith) (omega arith) h)
  ]

  pub read_mtime-write_mtime :
      (same : Bool) (last mtime : ℕ)
      → IsU64 mtime
      → (version < 30 → IsU32 mtime)
      → (same ≡ true → mtime ≡ last)
      → read_mtime version same last (write_mtime version same mtime ++ rest) ≡ ok mtime rest
  unfolding read_mtime write_mtime
  read_mtime-write_mtime true last mtime h k e = ap (λ (x : ℕ). ok x rest) (sym (e refl))
  read_mtime-write_mtime false last mtime h k e = elim (Bool-cases (leb 30 version)) [
    | inl new ↦ rw new (read_varlong-write_varlong 4 mtime rest (omega arith) (omega arith) h)
    | inr old ↦ rw old (
        read_uint32-write_uint32 (mtime % 2 ^ 32) rest (omega arith)
        ∙ ap (λ (x : ℕ). ok x rest) (ground (arith, k (ground arith))))
  ]

  pub read_id-write_id :
      (preserve same follows : Bool) (last id : ℕ) (name : Bytes)
      → IsU32 id
      → ((preserve && same) ≡ true → id ≡ last)
      → (leb 30 version && follows) ≡ false
      → read_id version preserve same follows last
          (write_id version preserve same follows id name ++ rest)
        ≡ ok ((if preserve then id else 0), []) rest
  unfolding read_id write_id
  read_id-write_id false same follows last id name h e no_name = refl
  read_id-write_id true true follows last id name h e no_name =
      ap (λ (x : ℕ). ok (x, []) rest) (sym (e refl))
  read_id-write_id true false follows last id name h e no_name =
      elim (Bool-cases (leb 30 version)) [
        | inl new ↦
            let unnamed : follows ≡ false = rw new at no_name in
            rw (new, unnamed, append_assoc (write_varint id) [] rest)
              (rw (read_varint-write_varint id rest h))
        | inr old ↦ rw old (rw (read_uint32-write_uint32 id rest h))
      ]

  pub read_rdev-write_rdev :
      (last major minor : ℕ)
      → IsRdev version major minor
      → read_rdev version false false last (write_rdev version false false major minor ++ rest)
        ≡ ok (major, minor) rest
  unfolding read_rdev write_rdev
  read_rdev-write_rdev last major minor (h, (k, small)) = elim (Bool-cases (ltb version 28)) [
    | inl packed ↦
        let (major_fits, minor_fits) = small (ltb→lt version 28 packed) in
        rw
          (
            packed,
            read_uint32-write_uint32 (pack_rdev major minor) rest
                (omega (arith, pack_rdev-eq major minor major_fits minor_fits)),
          )
          (ap (λ (p : ℕ × ℕ). ok p rest) (unpack_rdev major minor major_fits minor_fits))
    | inr split ↦ elim (Bool-cases (ltb version 30)) [
      | inl old ↦
          rw (split, old, append_assoc (write_uint32 major) (write_uint32 minor) rest)
            (rw (read_uint32-write_uint32 major (write_uint32 minor ++ rest) h)
              (rw (read_uint32-write_uint32 minor rest k)))
      | inr new ↦
          rw (split, new, append_assoc (write_varint major) (write_varint minor) rest)
            (rw (read_varint-write_varint major (write_varint minor ++ rest) h)
              (rw (read_varint-write_varint minor rest k)))
    ]
  ]

  pub read_link-write_link :
      (target : Bytes)
      → length target < 2 ^ 31
      → read_link version (write_link version target ++ rest) ≡ ok target rest
  unfolding read_link write_link
  read_link-write_link target h =
      let len = length target in
      elim (Bool-cases (ltb version 30)) [
        | inl old ↦
            rw (old, append_assoc (write_int32 (len % 2 ^ 32)) target rest)
              (rw (read_int32-write_int32 (len % 2 ^ 32) (target ++ rest) (omega arith))
                (target_read target rest h))
        | inr new ↦
            rw (new, append_assoc (write_varint (len % 2 ^ 32)) target rest)
              (rw (read_varint-write_varint (len % 2 ^ 32) (target ++ rest) (omega arith))
                (target_read target rest h))
      ]

  pub read_dev_ino-write_dev_ino :
      (same : Bool) (dev ino : ℕ)
      → IsU64 dev
      → IsU64 ino
      → (version < 26 → IsU32 dev × IsU32 ino)
      → read_dev_ino version same (write_dev_ino version same dev ino ++ rest)
        ≡ ok ((if leb 26 version && same then 0 else dev), ino) rest
  read_dev_ino-write_dev_ino same dev ino h k small = elim (Bool-cases (ltb version 26)) [
    | inl short ↦ short_pair version same dev ino rest short (small (ltb→lt version 26 short))
    | inr long ↦ long_pair version same dev ino rest long h k
  ]

module _ (rest : Bytes) where
  pub read_mod_nsec-write_mod_nsec :
      (sent : Bool) (mod_nsec : ℕ)
      → IsU32 mod_nsec
      → read_mod_nsec sent (write_mod_nsec sent mod_nsec ++ rest)
        ≡ ok (if sent then mod_nsec else 0) rest
  unfolding read_mod_nsec write_mod_nsec
  read_mod_nsec-write_mod_nsec true mod_nsec h = read_varint-write_varint mod_nsec rest h
  read_mod_nsec-write_mod_nsec false mod_nsec h = refl

  pub read_mode-write_mode :
      (same : Bool) (last mode : ℕ)
      → IsU32 mode
      → (same ≡ true → mode ≡ last)
      → read_mode same last (write_mode same mode ++ rest) ≡ ok mode rest
  unfolding read_mode write_mode
  read_mode-write_mode true last mode h e = ap (λ (x : ℕ). ok x rest) (sym (e refl))
  read_mode-write_mode false last mode h e = read_uint32-write_uint32 mode rest h

  pub read_atime-write_atime :
      (kept same : Bool) (mode last atime : ℕ)
      → IsU64 atime
      → (same ≡ true → atime ≡ last)
      → read_atime kept mode same last (write_atime kept mode same atime ++ rest)
        ≡ ok (if kept && not (is_dir mode) then atime else 0) rest
  unfolding read_atime write_atime
  read_atime-write_atime false same mode last atime h e = refl
  read_atime-write_atime true same mode last atime h e = elim (Bool-cases (is_dir mode)) [
    | inl dir ↦ rw dir
    | inr other ↦ rw other (sent same e)
  ]
    where
      sent :
          (same : Bool)
          → (same ≡ true → atime ≡ last)
          → (if not same then read_varlong 4 else return last)
              ((if not same then write_varlong atime 4 else []) ++ rest)
            ≡ ok atime rest
      sent true e = ap (λ (x : ℕ). ok x rest) (sym (e refl))
      sent false e = read_varlong-write_varlong 4 atime rest (omega arith) (omega arith) h

  pub read_full-write_checksum :
      (sum : Bytes)
      → (length sum ≡ 0) ⊎ (length sum ≡ 16)
      → read_full 16 (write_checksum sum ++ rest)
        ≡ ok (if is_nil sum then no_checksum else sum) rest
  unfolding write_checksum
  read_full-write_checksum [] h = read_full-append 16 no_checksum rest refl
  read_full-write_checksum (b ∷ sum) h = read_full-append 16 (b ∷ sum) rest (ground arith)
