-- ===== src/Args/Examples.antt =====
-- Concrete argument lists, and the theorems at them.
use go_rsyncfs.Base.{true, ◌≡◌, refl, List, [], ◌∷◌, ◌++◌, ◌&&◌, Bytes, ltb, get_or, arith}
use go_rsyncfs.Base.TestBit.{test_bit}
use go_rsyncfs.Io.{ok}
use go_rsyncfs.Args.{
  delimiter, read_args, read_delimited, write_args, write_each, extract_preserve_flags,
  resolve_compat_flags, preserve_args, preserve_bytes, preserve_byte, is_short_option, resolve_from,
  extract_client_info, after_byte,
}
use go_rsyncfs.Args.RoundTrip.{read_args-write_args, left_over}
use go_rsyncfs.Args.Flags.{
  any_short, contains, letters, extract_preserve_flags-exact, resolve_compat_flags-exact,
}

-- "--server" and "-logDtpre.iLs"
abbrev server_arg : Bytes
server_arg = b'-' ∷ b'-' ∷ b's' ∷ b'e' ∷ b'r' ∷ b'v' ∷ b'e' ∷ b'r' ∷ []

abbrev flags_arg : Bytes
flags_arg = b'-' ∷ b'l' ∷ b'o' ∷ b'g' ∷ b'e' ∷ b'.' ∷ b'i' ∷ b'L' ∷ b's' ∷ []

abbrev both_args : List Bytes
both_args = server_arg ∷ flags_arg ∷ []

client_info : extract_client_info both_args ≡ b'.' ∷ b'i' ∷ b'L' ∷ b's' ∷ []
unfolding extract_client_info is_short_option after_byte
client_info = refl

preserved : (extract_preserve_flags both_args).uid ≡ true
unfolding extract_preserve_flags preserve_args preserve_bytes preserve_byte is_short_option
preserved = refl

compat : resolve_compat_flags 5 (b'.' ∷ b'i' ∷ b'L' ∷ b's' ∷ []) ≡ 5
unfolding resolve_compat_flags resolve_from
compat = refl

-- An empty list leaves a delimiter behind.
empty_list : read_args 31 ((write_args [] 31).0 ++ (7 ∷ [])) ≡ ok [] (0 ∷ 7 ∷ [])
unfolding read_args read_delimited write_args write_each delimiter
empty_list = refl

read_args-write_args_example :
    read_args 31 ((write_args both_args 31).0 ++ (7 ∷ []))
    ≡ ok both_args (left_over 31 both_args ++ (7 ∷ []))
unfolding delimiter
read_args-write_args_example =
    read_args-write_args both_args 31 (7 ∷ [])
      (((λ e. cc), omega arith), (((λ e. cc), omega arith), tt))

resolve_compat_flags-exact_example :
    test_bit 2 (resolve_compat_flags 5 (b'i' ∷ b's' ∷ []))
    ≡ ltb 2 9 && (test_bit 2 5 && contains (get_or letters 2 0) (b'i' ∷ b's' ∷ []))
resolve_compat_flags-exact_example = resolve_compat_flags-exact 2 5 (b'i' ∷ b's' ∷ [])

extract_preserve_flags-exact_example :
    ((extract_preserve_flags both_args).uid ≡ any_short b'o' both_args)
    × ((extract_preserve_flags both_args).gid ≡ any_short b'g' both_args)
    × ((extract_preserve_flags both_args).hlinks ≡ any_short b'H' both_args)
extract_preserve_flags-exact_example = extract_preserve_flags-exact both_args
