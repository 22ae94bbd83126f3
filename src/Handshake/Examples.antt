-- ===== src/Handshake/Examples.antt =====
-- Concrete exchanges of a handshake, and the theorems at them.
use go_rsyncfs.Base.{◌≡◌, refl, if◌then◌else◌, ltb, min, List, [], ◌∷◌, ◌++◌, Bytes, arith}
use go_rsyncfs.Io.{ok}
use go_rsyncfs.Greet.{md5_name, md4_name}
use go_rsyncfs.Handshake.{
  read_line, write_line, read_compat_flags, write_compat_flags, exchange_version, is_space,
  fields_from, fields,
}
use go_rsyncfs.Greet.{Greeting}
use go_rsyncfs.Handshake.Greetings.{
  IsGreeting, read_greeting, write_greeting, read_greeting-write_greeting,
}
use go_rsyncfs.Handshake.Lines.{
  read_line-write_line, read_compat_flags-write_compat_flags, exchange_version-min,
}

abbrev names : List Bytes
names = md5_name ∷ md4_name ∷ []

some_fields : fields (b' ' ∷ b'm' ∷ b'd' ∷ b'5' ∷ 9 ∷ b' ' ∷ b'm' ∷ b'd' ∷ b'4' ∷ []) ≡ names
unfolding fields fields_from is_space
some_fields = refl

sample_line : read_line ((write_line md5_name).0 ++ (7 ∷ [])) ≡ ok md5_name (7 ∷ [])
sample_line = read_line-write_line md5_name (7 ∷ []) (refl, (refl, (refl, tt)))

read_compat_flags-write_compat_flags_run :
    read_compat_flags 31 (write_compat_flags 0x1ff 31 ++ (7 ∷ []))
    ≡ ok (if ltb 31 30 then 0 else 0x1ff) (7 ∷ [])
read_compat_flags-write_compat_flags_run =
    read_compat_flags-write_compat_flags 0x1ff 31 (7 ∷ []) (omega arith)

exchange_version-min_run :
    (exchange_version 32).1 ((exchange_version 29).0 ++ (7 ∷ [])) ≡ ok (min 32 29) (7 ∷ [])
exchange_version-min_run = exchange_version-min 32 29 (7 ∷ []) (omega arith) (omega arith)

-- Version 32.0 with both digests.
abbrev newest : Greeting
newest = record { version = 32; sub_protocol = 0; digests = names }

newest-IsGreeting : IsGreeting newest
unfolding is_space
newest-IsGreeting = record {
  version_fits = omega arith;
  one_digit = omega arith;
  named = (((λ e. cc), (refl, (refl, (refl, tt)))), (((λ e. cc), (refl, (refl, (refl, tt)))), tt));
}

read_greeting-write_greeting_example :
    read_greeting (write_greeting newest ++ (7 ∷ [])) ≡ ok newest (7 ∷ [])
read_greeting-write_greeting_example =
    read_greeting-write_greeting newest newest-IsGreeting (7 ∷ [])
