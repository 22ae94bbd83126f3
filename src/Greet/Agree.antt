-- ===== src/Greet/Agree.antt =====
-- What Negotiate agrees on: one version for both sides, and the digest by the client's preference.
use go_rsyncfs.Base.{
  ◌+◌, ◌≤◌, ◌≡◌, refl, ap, ◌⊎◌, inl, inr, true, false, Bool-cases, List, [], ◌∷◌, ◌++◌, Bytes, some,
  min, All, arith,
}
use go_rsyncfs.Greet.{
  Greeting, min_protocol_version, offers, first_common, pick_version, fallback_digest, Agreed,
  negotiate,
}

-- The digest of a negotiation: the first of the client's that the server offers, or none.
pub data Choice (client server : List Bytes) : Bytes → Type 0 where
  chosen :
      {d : Bytes} (before after : List Bytes)
      → client ≡ before ++ (d ∷ after)
      → All (λ x. offers server x ≡ false) before
      → offers server d ≡ true
      → Choice client server d
  no_common : All (λ x. offers server x ≡ false) client → Choice client server []

pub first_common-Choice :
    (client server : List Bytes) → Choice client server (first_common client server)
unfolding first_common
first_common-Choice [] server = no_common tt
first_common-Choice (cd ∷ client) server = elim (Bool-cases (offers server cd)) [
  | inl offered ↦ rw offered (chosen [] client refl tt offered)
  | inr refused ↦ rw refused (later refused (first_common-Choice client server))
]
  where
    later :
        {d : Bytes}
        → offers server cd ≡ false
        → Choice client server d
        → Choice (cd ∷ client) server d
    later refused (chosen before after e b o) =
        chosen (cd ∷ before) after (ap (λ (x : List Bytes). cd ∷ x) e) (refused, b) o
    later refused (no_common b) = no_common (refused, b)

-- What both sides may rely on.
pub record IsAgreed (client server : Greeting) (a : Agreed) : Type 0 where
  pub client_speaks : a.version ≤ client.version
  pub server_speaks : a.version ≤ server.version
  pub at_most_one_down : min client.version server.version ≤ a.version + 1
  pub at_least : min_protocol_version ≤ a.version
  -- A subprotocol is kept only where both sides have this very version of it.
  pub same_sub_protocol :
      (a.sub_protocol ≡ 0)
      ⊎ ((client.version ≡ server.version)
          × ((a.sub_protocol ≡ client.sub_protocol) × (a.sub_protocol ≡ server.sub_protocol)))
  pub digest_choice :
      Choice client.digests server.digests (first_common client.digests server.digests)
  pub digest_eq : a.digest ≡ fallback_digest a.version (first_common client.digests server.digests)

-- Negotiate, when it succeeds, takes a version that both sides speak, at most one below the lower
-- of theirs and never below 20, a subprotocol only if both have it, and the first digest of the
-- client's that the server offers, else the default of the version.
pub negotiate-IsAgreed :
    (client server : Greeting) (a : Agreed)
    → negotiate client server ≡ some a
    → IsAgreed client server a
unfolding negotiate pick_version
negotiate-IsAgreed client server a e = record {
  client_speaks = ground arith;
  server_speaks = ground arith;
  at_most_one_down = ground arith;
  at_least = ground arith;
  same_sub_protocol = ground arith;
  digest_choice = first_common-Choice client.digests server.digests;
  digest_eq = ground arith;
}

-- The version and the subprotocol of a negotiation do not depend on which side is called the client.
pub pick_version-symmetric :
    (client server : Greeting) → pick_version client server ≡ pick_version server client
unfolding pick_version
pick_version-symmetric client server = ground arith

pub first_common-nil : (server : List Bytes) → first_common [] server ≡ []
unfolding first_common
first_common-nil server = refl
