-- ===== src/Server.antt =====
-- The server (server.go): its modules and NewServer. A module's file system is here what FS.Open(".")
-- says of it.
pub mod Handshake
use go_rsyncfs.Base.{
  Bool, true, false, List, [], ◌∷◌, ◌++◌, Option, none, some, Bytes, if◌then◌else◌,
}
use go_rsyncfs.Greet.{same_name}

-- `auth_callback` gives the digest that it expects, or none for an error.
pub record ServerModule : Type 0 where
  pub name : Bytes
  pub comment : Bytes
  pub root_opens : Bool
  pub auth_callback : Option (Bytes → Bytes → Option Bytes)

-- A look into the map, as the list of its values under their names. A range over Go's map takes
-- them in any order; here it is the order in which NewServer took them.
unfoldable pub find_module : List ServerModule → Bytes → Option ServerModule
find_module [] name = none
find_module (m ∷ modules) name =
    let later = find_module modules name in if same_name m.name name then some m else later

-- The loop of NewServer over the modules.
unfoldable pub add_modules : List ServerModule → List ServerModule → Option (List ServerModule)
add_modules modules [] = some modules
add_modules modules (m ∷ mods) = elim (find_module modules m.name) [
  | some other ↦ none
  | none ↦ add_modules (modules ++ (m ∷ [])) mods
]

unfoldable pub new_server : List ServerModule → Option (List ServerModule)
new_server mods = add_modules [] mods
