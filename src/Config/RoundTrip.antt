-- ===== src/Config/RoundTrip.antt =====
-- Settings that were saved, as the next start loads them.
use eliaukvpn.Base.{
  ◌≡◌, refl, sym, ap, Bool, true, false, ◌&&◌, inl, inr, List, ◌∷◌, [], ◌++◌, some, ◌∙◌, All,
  Bool-cases, if◌then◌else◌, arith,
}
use eliaukvpn.Base.Str.{Str, Bytes, str_eq, str_eq_iff}
use eliaukvpn.Base.Files.{contents}
use eliaukvpn.Base.Result.{ok}
use eliaukvpn.Config.{
  Config, empty_config, Field, name_field, server_field, java_field, server_jar_field,
  launcher_field, game_dir_field, update_url_field, fields, tag, value_of, set_value, is_omitted,
  to_members, object, is_ascii, string_members, Json, field_of, put_members, trim_bom, load, save,
}

abbrev pub byte_order_mark : Bytes
byte_order_mark = 0xEF ∷ 0xBB ∷ 0xBF ∷ []

abbrev all_utf8 : (Str → Bool) → Config → Bool
all_utf8 utf8 c =
    utf8 c.name
    && utf8 c.server
    && utf8 c.java
    && utf8 c.server_jar
    && utf8 c.launcher
    && utf8 c.game_dir
    && utf8 c.update_url

trim_bom-object : (rest : Bytes) → trim_bom (123 ∷ rest) ≡ 123 ∷ rest
unfolding trim_bom
trim_bom-object [] = refl
trim_bom-object (a ∷ []) = refl
trim_bom-object (a ∷ b ∷ rest) = refl

trim_bom-mark : (raw : Bytes) → trim_bom (byte_order_mark ++ raw) ≡ raw
unfolding trim_bom
trim_bom-mark raw = refl

saved :
    (j : Json) (c : Config) (made written : Bool) (raw : Bytes)
    → save j c made written ≡ ok raw
    → j.encode (to_members fields c) ≡ raw
unfolding save
saved j c false written raw h = cc
saved j c true false raw h = cc
saved j c true true raw h = cc

tag-ascii : (f : Field) → is_ascii (tag f) ≡ true
unfolding tag
tag-ascii name_field = refl
tag-ascii server_field = refl
tag-ascii java_field = refl
tag-ascii server_jar_field = refl
tag-ascii launcher_field = refl
tag-ascii game_dir_field = refl
tag-ascii update_url_field = refl

-- No two fields have one tag.
field_of-tag : (fold : Str → Str) (f : Field) → field_of fold (tag f) ≡ some f
unfolding field_of tag str_eq
field_of-tag fold name_field = refl
field_of-tag fold server_field = refl
field_of-tag fold java_field = refl
field_of-tag fold server_jar_field = refl
field_of-tag fold launcher_field = refl
field_of-tag fold game_dir_field = refl
field_of-tag fold update_url_field = refl

set_value-value_of : (f : Field) (c : Config) → set_value f (value_of f c) c ≡ c
unfolding set_value value_of
set_value-value_of name_field c = refl
set_value-value_of server_field c = refl
set_value-value_of java_field c = refl
set_value-value_of server_jar_field c = refl
set_value-value_of launcher_field c = refl
set_value-value_of game_dir_field c = refl
set_value-value_of update_url_field c = refl

value_of-utf8 :
    (utf8 : Str → Bool) (c : Config)
    → all_utf8 utf8 c ≡ true
    → (f : Field) → utf8 (value_of f c) ≡ true
unfolding value_of
value_of-utf8 utf8 c h name_field = ground arith
value_of-utf8 utf8 c h server_field = ground arith
value_of-utf8 utf8 c h java_field = ground arith
value_of-utf8 utf8 c h server_jar_field = ground arith
value_of-utf8 utf8 c h launcher_field = ground arith
value_of-utf8 utf8 c h game_dir_field = ground arith
value_of-utf8 utf8 c h update_url_field = ground arith

-- The members are ones that JSON keeps.
to_members_kept :
    (utf8 : Str → Bool) (c : Config) (fs : List Field)
    → all_utf8 utf8 c ≡ true
    → All (λ m. (is_ascii m.0 ≡ true) × (utf8 m.1 ≡ true)) (to_members fs c)
unfolding to_members
to_members_kept utf8 c [] valid = tt
to_members_kept utf8 c (f ∷ fs) valid = elim (Bool-cases (is_omitted f c)) [
  | inl omitted ↦ rw (to_members, omitted) (to_members_kept utf8 c fs valid)
  | inr kept ↦
      rw (to_members, kept)
        ((tag-ascii f, value_of-utf8 utf8 c valid f), to_members_kept utf8 c fs valid)
]

-- The fields of c copied to another configuration, but those that are omitted
abbrev copied : Field → Config → Config → Config
copied f c to = if is_omitted f c then to else set_value f (value_of f c) to

abbrev copy : List Field → Config → Config → Config
copy [] c to = to
copy (f ∷ fs) c to = copy fs c (copied f c to)

put_members-to_members :
    (fold : Str → Str) (c : Config) (fs : List Field) (to : Config)
    → put_members fold (string_members (to_members fs c)) to ≡ some (copy fs c to)
unfolding put_members to_members
put_members-to_members fold c [] to = refl
put_members-to_members fold c (f ∷ fs) to = elim (Bool-cases (is_omitted f c)) [
  | inl omitted ↦ rw (to_members, omitted) (put_members-to_members fold c fs to)
  | inr kept ↦
      rw (to_members, kept, put_members, field_of-tag fold f)
        (put_members-to_members fold c fs (set_value f (value_of f c) to))
]

-- Where the other configuration's field is empty, leaving it out makes no difference.
copied_lem :
    (f : Field) (c to : Config) → value_of f to ≡ [] → copied f c to ≡ set_value f (value_of f c) to
copied_lem f c to empty = elim (Bool-cases (is_omitted f c)) [
  | inr kept ↦ rw kept refl
  | inl omitted ↦
      let is_empty : str_eq (value_of f c) [] ≡ true = ground (arith, omitted) in
      let none' : value_of f c ≡ [] = (str_eq_iff (value_of f c) []).0 is_empty in
      rw omitted (sym (ap (λ v. set_value f v to) (none' ∙ sym empty) ∙ set_value-value_of f to))
]

copy-empty_config : (c : Config) → copy fields c empty_config ≡ c
unfolding set_value value_of
copy-empty_config c =
    let c1 : Config = record empty_config { name = c.name } in
    let c2 : Config = record c1 { server = c.server } in
    let c3 : Config = record c2 { java = c.java } in
    let c4 : Config = record c3 { server_jar = c.server_jar } in
    let c5 : Config = record c4 { launcher = c.launcher } in
    let c6 : Config = record c5 { game_dir = c.game_dir } in
    rw
      (
        copied_lem name_field c empty_config refl,
        copied_lem server_field c c1 refl,
        copied_lem java_field c c2 refl,
        copied_lem server_jar_field c c3 refl,
        copied_lem launcher_field c c4 refl,
        copied_lem game_dir_field c c5 refl,
        copied_lem update_url_field c c6 refl,
      )
      refl

-- Settings in UTF-8 that Save writes are the settings that Load reads, from the file as it was
-- written and from the file with a byte order mark that another editor put before it.
pub load-save :
    (j : Json) (c : Config) (made written : Bool) (raw : Bytes)
    → all_utf8 j.utf8 c ≡ true
    → save j c made written ≡ ok raw
    → (load j (contents raw) ≡ ok c) × (load j (contents (byte_order_mark ++ raw)) ≡ ok c)
unfolding load
load-save j c made written raw valid h =
    let ms : List (Str × Str) = to_members fields c in
    let is : j.encode ms ≡ raw = saved j c made written raw h in
    let (rest, begins) = j.opens ms in
    let back : j.decode raw ≡ some (object (string_members ms)) =
      rw is at (j.decode-encode ms (to_members_kept j.utf8 c fields valid)) in
    let kept : trim_bom raw ≡ raw = rw (sym is ∙ begins) (trim_bom-object rest) in
    let same : put_members j.fold (string_members ms) empty_config ≡ some c =
      put_members-to_members j.fold c fields empty_config ∙ ap some (copy-empty_config c) in
    (rw (kept, back, same) refl, rw (trim_bom-mark raw, back, same) refl)
