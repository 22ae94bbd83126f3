-- ===== src/Greet/Examples.antt =====
-- Concrete greetings, and the theorems at them.
use go_rsyncfs.Base.{◌≡◌, refl, [], ◌∷◌, some, none}
use go_rsyncfs.Greet.{
  Greeting, md4_name, supported_digests, offers, same_name, first_common, pick_version,
  fallback_digest, Agreed, negotiate,
}
use go_rsyncfs.Greet.Agree.{IsAgreed, negotiate-IsAgreed, pick_version-symmetric}

abbrev ours : Greeting
ours = record { version = 32; sub_protocol = 0; digests = supported_digests }

-- An older peer with a subprotocol that is not ready, and one common digest.
abbrev theirs : Greeting
theirs = record { version = 31; sub_protocol = 2; digests = (b'x' ∷ []) ∷ md4_name ∷ [] }

abbrev result : Agreed
result = record { version = 30; sub_protocol = 0; digest = md4_name }

negotiated : negotiate ours theirs ≡ some result
unfolding negotiate pick_version first_common offers same_name fallback_digest
negotiated = refl

too_old : negotiate ours (record theirs { version = 20 }) ≡ none
unfolding negotiate pick_version
too_old = refl

negotiate-IsAgreed_example : IsAgreed ours theirs result
negotiate-IsAgreed_example = negotiate-IsAgreed ours theirs result negotiated

pick_version-symmetric_run : pick_version ours theirs ≡ pick_version theirs ours
pick_version-symmetric_run = pick_version-symmetric ours theirs
