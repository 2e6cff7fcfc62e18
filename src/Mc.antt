-- ===== src/Mc.antt =====
-- internal/mc/mc.go: the merge of server.properties in PrepareServerDir. The rest of the package
-- finds files, edits the server list and starts processes.
pub mod Defaults
pub mod Nbt
pub mod ServersDat
mod Examples
use eliaukvpn.Base.{
  ℕ, Bool, true, false, ◌||◌, Option, none, some, List, [], ◌∷◌, ◌++◌, map, ◌==◌, if◌then◌else◌,
}
use eliaukvpn.Base.Str.{Str, text, str_eq}
use eliaukvpn.Base.GoMap.{GoMap, get}
use eliaukvpn.Base.Trim.{trim_left, trim_right}

-- strings.SplitN(l, "=", 2)[0]
unfoldable pub before_equals : Str → Str
before_equals [] = []
before_equals (c ∷ s) = let rest = before_equals s in if c == 61 then [] else c ∷ rest

-- The key of a line; TrimSpace on ASCII text.
unfoldable pub key_of : Str → Str
unfolding before_equals trim_left trim_right
key_of l = trim_right (trim_left (before_equals l))

-- key + "=" + v
abbrev pub setting : Str → Str → Str
setting key value = key ++ text "=" ++ value

-- The loop over the lines: a key with a default is set to it.
unfoldable pub set_line : GoMap Str → Str → Str
set_line defaults l = elim (get (key_of l) defaults) [ none ↦ l | some v ↦ setting (key_of l) v ]

-- seen[key]
unfoldable pub key_seen : Str → List Str → Bool
key_seen key [] = false
key_seen key (l ∷ lines) = str_eq (key_of l) key || key_seen key lines

-- The loop over the defaults: those not seen are appended.
unfoldable pub missing : List Str → GoMap Str → List Str
missing lines [] = []
missing lines ((k, v) ∷ defaults) =
    let rest = missing lines defaults in if key_seen k lines then rest else setting k v ∷ rest

-- The lines that PrepareServerDir writes
unfoldable pub merge_properties : GoMap Str → List Str → List Str
merge_properties defaults lines = map (set_line defaults) lines ++ missing lines defaults

abbrev pub server_defaults : GoMap Str
server_defaults =
    (text "server-port", text "25565")
    ∷ (text "online-mode", text "false")
    ∷ (text "motd", text "Eliauk VPN")
    ∷ []
