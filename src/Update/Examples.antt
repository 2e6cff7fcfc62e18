-- ===== src/Update/Examples.antt =====
-- Versions and manifests, and the theorems on update.go applied to them.
use eliaukvpn.Base.{◌≡◌, ◌↔◌, refl, true, false}
use eliaukvpn.Base.Str.{text}
use eliaukvpn.Update.{
  newer, numbers_of, split_version, fields_of, atoi, digits_value, newer_numbers,
}
use eliaukvpn.Update.Order.{Larger, newer_iff}

minor_ten : newer (text "1.10") (text "1.9") ≡ true
unfolding newer numbers_of split_version fields_of atoi digits_value newer_numbers
minor_ten = refl

trailing_zero : newer (text "1.2.0") (text "1.2") ≡ false
unfolding newer numbers_of split_version fields_of atoi digits_value newer_numbers
trailing_zero = refl

newer_iff_example :
    (newer (text "1.10") (text "1.9") ≡ true)
    ↔ Larger (numbers_of (text "1.10")) (numbers_of (text "1.9"))
newer_iff_example = newer_iff (text "1.10") (text "1.9")
