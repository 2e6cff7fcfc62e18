-- ===== src/Mc/Examples.antt =====
-- A server.properties of mc.go, and the theorem applied to it.
use eliaukvpn.Base.{◌⊎◌, ◌≡◌, refl, none, [], ◌∷◌, In}
use eliaukvpn.Base.Str.{Str, text, str_eq}
use eliaukvpn.Base.GoMap.{get}
use eliaukvpn.Base.Trim.{trim_left, trim_right}
use eliaukvpn.Mc.{
  before_equals, key_of, setting, set_line, key_seen, missing, merge_properties, server_defaults,
}
use eliaukvpn.Mc.Defaults.{IsForeign, IsDefault, merge_defaults}
use mathlib.Core.List.{List}

abbrev own : List Str
own = text "motd=ours" ∷ text "pvp=true" ∷ []

-- The user's message of the day does not survive.
own_motd_lost :
    merge_properties server_defaults own
    ≡ text "motd=Eliauk VPN"
      ∷ text "pvp=true"
      ∷ text "server-port=25565"
      ∷ text "online-mode=false"
      ∷ []
unfolding merge_properties set_line missing key_seen key_of before_equals trim_left trim_right get
    str_eq
own_motd_lost = refl

merge_defaults_example :
    ((k v : Str)
      → In (k, v) server_defaults
      → In (setting k v) (merge_properties server_defaults own))
    × ((l : Str)
        → In l own
        → get (key_of l) server_defaults ≡ none
        → In l (merge_properties server_defaults own))
    × ((l : Str)
        → In l (merge_properties server_defaults own)
        → IsForeign server_defaults own l ⊎ IsDefault server_defaults l)
unfolding get str_eq
merge_defaults_example = merge_defaults server_defaults own (refl, (refl, (refl, tt)))
