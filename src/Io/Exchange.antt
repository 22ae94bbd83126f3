-- ===== src/Io/Exchange.antt =====
-- A function that reads and writes on one connection: from the bytes to come to the bytes that it
-- wrote and its result. What was written before an error stays written.
use go_rsyncfs.Base.{◌++◌, Bytes, []}
use go_rsyncfs.Io.{Result, ok, err, Error, Reader}

abbrev pub Exchange {ℓ} : Type ℓ → Type ℓ
Exchange A = Bytes → Bytes × Result A

abbrev pub before {ℓ} : {A : Type ℓ} → Bytes → Bytes × Result A → Bytes × Result A
before w (v, r) = (w ++ v, r)

abbrev pub then_do {ℓ κ} :
    {A : Type ℓ} {B : Type κ} → Bytes × Result A → (A → Exchange B) → Bytes × Result B
then_do (w, ok a s) f = before w (f a s)
then_do (w, err e s) f = (w, err e s)

infixl 5 ◌>>=◌
abbrev pub ◌>>=◌ {ℓ κ} : {A : Type ℓ} {B : Type κ} → Exchange A → (A → Exchange B) → Exchange B
◌>>=◌ m f s = then_do (m s) f

abbrev pub return {ℓ} : {A : Type ℓ} → A → Exchange A
return a s = ([], ok a s)

abbrev pub fail {ℓ} : {A : Type ℓ} → Error → Exchange A
fail e s = ([], err e s)

abbrev pub send : Bytes → Exchange (Unit {0})
send w s = (w, ok tt s)

abbrev pub receive {ℓ} : {A : Type ℓ} → Reader A → Exchange A
receive m s = ([], m s)

-- A last line, sent before the error.
abbrev pub refuse {ℓ} : {A : Type ℓ} → Bytes → Error → Exchange A
refuse w e s = (w, err e s)

-- A read whose error is told to the other side.
abbrev pub told {ℓ} : {A : Type ℓ} → Bytes → Result A → Bytes × Result A
told w (ok a s) = ([], ok a s)
told w (err e s) = (w, err e s)

abbrev pub receive_or_tell {ℓ} : {A : Type ℓ} → Bytes → Reader A → Exchange A
receive_or_tell w m s = told w (m s)
