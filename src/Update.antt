-- ===== src/Update.antt =====
-- internal/update/update.go: the signature of a manifest and the order of versions. Ed25519 is the
-- parameter `ed_verify`.
pub mod Order
pub mod Fetch
pub mod Signature
mod Examples
use eliaukvpn.Base.{
  ℕ, ◌+◌, ◌-◌, ◌*◌, ◌^◌, Bool, true, false, not, ◌&&◌, ◌||◌, Option, none, some, List, [], ◌∷◌,
  ◌++◌, map, length, is_empty, ltb, leb, ◌==◌, if◌then◌else◌,
}
use eliaukvpn.Base.Str.{Str, Bytes, text}
use eliaukvpn.Base.Hex.{hex_decode}
use eliaukvpn.Base.Result.{Result, ok, err}

pub record Manifest : Type 0 where
  pub version : Str
  pub url : Str
  pub sha256 : Str
  pub signature : Str
  pub notes : Str

pub data UpdateError : Type 0 where
  no_signature bad_signature_format bad_signature : UpdateError
  no_feed invalid_feed unreachable bad_manifest missing_fields : UpdateError
  no_temp interrupted not_closed digest_mismatch : UpdateError
  bad_status : ℕ → UpdateError

-- signingMessage
unfoldable pub signing_message : Manifest → Bytes
signing_message m = m.version ++ text "|" ++ m.url ++ text "|" ++ m.sha256

-- Verify, once a key is compiled in
unfoldable pub verify_with :
    (Bytes → Bytes → Bytes → Bool) → Manifest → Bytes → Result UpdateError (Unit {0})
verify_with ed_verify m key =
    if is_empty m.signature then err no_signature else elim (hex_decode m.signature) [
      | none ↦ err bad_signature_format
      | some sig ↦ if ed_verify key (signing_message m) sig then ok tt else err bad_signature
    ]

-- Verify
unfoldable pub verify :
    (Bytes → Bytes → Bytes → Bool) → Manifest → Bytes → Result UpdateError (Unit {0})
unfolding verify_with
verify ed_verify m key = if length key == 32 then verify_with ed_verify m key else ok tt

abbrev is_separator : ℕ → Bool
is_separator c = (c == 46) || (c == 45) || (c == 43)

-- The field that is being read goes before the others, unless it is empty.
abbrev end_field : Str → List Str → List Str
end_field [] fields = fields
end_field (c ∷ s) fields = (c ∷ s) ∷ fields

-- strings.FieldsFunc: the first field so far, and the fields after it.
unfoldable pub fields_of : Str → Str × List Str
fields_of [] = ([], [])
fields_of (c ∷ s) =
    let (first, fields) = fields_of s in
    if is_separator c then ([], end_field first fields) else (c ∷ first, fields)

-- splitVersion
unfoldable pub split_version : Str → List Str
split_version v = let (first, fields) = fields_of v in end_field first fields

abbrev pub max_int : ℕ
max_int = 2 ^ 63 - 1

-- The digits' value, `none` where some character is no digit.
unfoldable pub digits_value : ℕ → Str → Option ℕ
digits_value acc [] = some acc
digits_value acc (c ∷ s) =
    let rest = digits_value (acc * 10 + (c - 48)) s in if leb 48 c && leb c 57 then rest else none

-- The value of strconv.Atoi where its error is dropped: 0 for what is no number, the largest int for
-- what is too large. A field has no sign, since signs separate fields.
unfoldable pub atoi : Str → ℕ
atoi s = elim (digits_value 0 s) [ none ↦ 0 | some n ↦ if ltb max_int n then max_int else n ]

-- The loop of Newer, on the numbers
unfoldable pub newer_numbers : List ℕ → List ℕ → Bool
newer_numbers [] [] = false
newer_numbers (x ∷ xs) [] = let rest = newer_numbers xs [] in if x == 0 then rest else ltb 0 x
newer_numbers [] (y ∷ ys) = let rest = newer_numbers [] ys in if 0 == y then rest else ltb y 0
newer_numbers (x ∷ xs) (y ∷ ys) = let rest = newer_numbers xs ys in if x == y then rest else ltb y x

unfoldable pub numbers_of : Str → List ℕ
numbers_of v = map atoi (split_version v)

-- Newer
unfoldable pub newer : Str → Str → Bool
newer next current = newer_numbers (numbers_of next) (numbers_of current)
