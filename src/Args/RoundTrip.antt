-- ===== src/Args/RoundTrip.antt =====
-- ReadArgs on what WriteArgs wrote.
use go_rsyncfs.Base.{
  ℕ, ◌≡◌, ◌≢◌, refl, ap, ◌∙◌, List, [], ◌∷◌, ◌++◌, append-nil, append_assoc, Bytes, All, arith,
}
use go_rsyncfs.Io.{ok, wrote}
use go_rsyncfs.Args.{delimiter, read_delimited, read_args, write_each, write_args}

-- An argument that the format can carry.
abbrev pub IsArg : ℕ → Bytes → Type 0
IsArg version arg = (arg ≢ []) × All (λ b. b ≢ delimiter version) arg

abbrev pub IsArgs : ℕ → List Bytes → Type 0
IsArgs version = All (IsArg version)

-- What ReadArgs leaves unread: after an empty list, one of its two delimiters.
abbrev pub left_over : ℕ → List Bytes → Bytes
left_over version [] = delimiter version ∷ []
left_over version (arg ∷ args) = []

read_delimited-arg :
    (delim : ℕ) (args : List Bytes) (current arg rest : Bytes)
    → All (λ b. b ≢ delim) arg
    → read_delimited delim args current (arg ++ rest)
      ≡ read_delimited delim args (current ++ arg) rest
unfolding read_delimited
read_delimited-arg delim args current [] rest h = rw append-nil
read_delimited-arg delim args current (b ∷ arg) rest h = ground (
  arith,
  read_delimited-arg delim args (current ++ (b ∷ [])) arg rest h.1,
  append_assoc current (b ∷ []) arg,
)

read_delimited-end :
    (delim : ℕ) (args : List Bytes) (arg rest : Bytes)
    → arg ≢ []
    → read_delimited delim args arg (delim ∷ rest)
      ≡ read_delimited delim (args ++ (arg ∷ [])) [] rest
unfolding read_delimited
read_delimited-end delim args [] rest h = absurd (h refl)
read_delimited-end delim args (b ∷ arg) rest h = ground arith

-- The arguments, each with its delimiter.
abbrev terminated : ℕ → List Bytes → Bytes
terminated delim [] = []
terminated delim (arg ∷ args) = arg ++ (delim ∷ terminated delim args)

write_each-terminated :
    (delim : ℕ) (args : List Bytes) → write_each delim args ≡ wrote (terminated delim args)
unfolding write_each
write_each-terminated delim [] = refl
write_each-terminated delim (arg ∷ args) = rw (write_each-terminated delim args, append_assoc)

read_terminated :
    (version : ℕ) (args before : List Bytes) (rest : Bytes)
    → IsArgs version args
    → read_delimited
        (delimiter version)
        before
        []
        (terminated (delimiter version) args ++ (delimiter version ∷ rest))
      ≡ ok (before ++ args) rest
read_terminated version [] before rest h = rw append-nil (unfold read_delimited in ground arith)
read_terminated version (arg ∷ args) before rest h =
    let delim = delimiter version in
    ap (read_delimited delim before []) (append_assoc arg _ _)
    ∙ read_delimited-arg delim before [] arg _ h.0.1
    ∙ read_delimited-end delim before arg _ h.0.0
    ∙ read_terminated version args (before ++ (arg ∷ [])) rest h.1
    ∙ ap (λ (a : List Bytes). ok a rest) (append_assoc before (arg ∷ []) args)

-- ReadArgs returns the arguments that WriteArgs was given, if each is a non-empty string with no
-- delimiter in it. It leaves what follows; after an empty list it leaves a delimiter too.
pub read_args-write_args :
    (args : List Bytes) (version : ℕ) (rest : Bytes)
    → IsArgs version args
    → read_args version ((write_args args version).0 ++ rest)
      ≡ ok args (left_over version args ++ rest)
unfolding read_args write_args
read_args-write_args [] version rest h = unfold read_delimited write_each in ground arith
read_args-write_args (arg ∷ args) version rest h =
    rw (write_each-terminated (delimiter version) (arg ∷ args), append-nil, append_assoc)
      (read_terminated version (arg ∷ args) [] rest h)
