-- ===== src/Config.antt =====
-- internal/config/config.go: the settings file, with the struct's tags. The text of a JSON object is
-- a parameter; the directory and the file are what the caller gives.
pub mod RoundTrip
mod Examples
use eliaukvpn.Base.{
  ℕ, ◌≡◌, Bool, true, false, not, ◌&&◌, Option, none, some, List, ◌∷◌, [], if◌then◌else◌, ◌==◌, ltb,
  All,
}
use eliaukvpn.Base.Str.{Str, Bytes, text, str_eq}
use eliaukvpn.Base.Files.{FileRead, no_file, unreadable, contents}
use eliaukvpn.Base.Result.{Result, ok, err}

pub record Config : Type 0 where
  pub name : Str
  pub server : Str
  pub java : Str
  pub server_jar : Str
  pub launcher : Str
  pub game_dir : Str
  pub update_url : Str

abbrev pub empty_config : Config
empty_config = record {
  name = [];
  server = [];
  java = [];
  server_jar = [];
  launcher = [];
  game_dir = [];
  update_url = [];
}

-- The fields of the struct, with its tags: `json:"name"` and the like
pub data Field : Type 0 where
  name_field server_field java_field server_jar_field launcher_field game_dir_field : Field
  update_url_field : Field

abbrev pub fields : List Field
fields =
    name_field ∷ server_field ∷ java_field ∷ server_jar_field ∷ launcher_field ∷ game_dir_field
    ∷ update_url_field ∷ []

unfoldable pub tag : Field → Str
tag name_field = text "name"
tag server_field = text "server"
tag java_field = text "java"
tag server_jar_field = text "server_jar"
tag launcher_field = text "launcher"
tag game_dir_field = text "game_dir"
tag update_url_field = text "update_url"

-- omitempty
unfoldable pub omit_empty : Field → Bool
omit_empty name_field = false
omit_empty server_field = true
omit_empty java_field = true
omit_empty server_jar_field = true
omit_empty launcher_field = true
omit_empty game_dir_field = true
omit_empty update_url_field = true

unfoldable pub value_of : Field → Config → Str
value_of name_field c = c.name
value_of server_field c = c.server
value_of java_field c = c.java
value_of server_jar_field c = c.server_jar
value_of launcher_field c = c.launcher
value_of game_dir_field c = c.game_dir
value_of update_url_field c = c.update_url

unfoldable pub set_value : Field → Str → Config → Config
set_value name_field v c = record c { name = v }
set_value server_field v c = record c { server = v }
set_value java_field v c = record c { java = v }
set_value server_jar_field v c = record c { server_jar = v }
set_value launcher_field v c = record c { launcher = v }
set_value game_dir_field v c = record c { game_dir = v }
set_value update_url_field v c = record c { update_url = v }

-- What json.Marshal makes of the struct: the members of an object, in order
abbrev pub is_omitted : Field → Config → Bool
is_omitted f c = omit_empty f && str_eq (value_of f c) []

unfoldable pub to_members : List Field → Config → List (Str × Str)
to_members [] c = []
to_members (f ∷ fs) c =
    let rest = to_members fs c in if is_omitted f c then rest else (tag f, value_of f c) ∷ rest

-- A value of a JSON object's member, as far as a field of type string tells values apart
pub data JsonValue : Type 0 where
  json_string : Str → JsonValue
  json_null json_other : JsonValue

pub data Document : Type 0 where
  object : List (Str × JsonValue) → Document
  null_document other_document : Document

abbrev pub is_ascii : Str → Bool
is_ascii [] = true
is_ascii (c ∷ s) = ltb c 128 && is_ascii s

abbrev pub string_members : List (Str × Str) → List (Str × JsonValue)
string_members [] = []
string_members (m ∷ ms) = (m.0, json_string m.1) ∷ string_members ms

-- encoding/json's texts: an object with ASCII names and strings in UTF-8 reads as its members, and
-- begins with a brace. `fold` is the folding by which names are compared without case.
pub record Json : Type 0 where
  pub utf8 : Str → Bool
  pub fold : Str → Str
  pub encode : List (Str × Str) → Bytes
  pub decode : Bytes → Option Document
  pub decode-encode :
      (ms : List (Str × Str))
      → All (λ m. (is_ascii m.0 ≡ true) × (utf8 m.1 ≡ true)) ms
      → decode (encode ms) ≡ some (object (string_members ms))
  pub opens : (ms : List (Str × Str)) → (rest : Bytes) × (encode ms ≡ 123 ∷ rest)

abbrev find_field : (Field → Bool) → List Field → Option Field
find_field test [] = none
find_field test (f ∷ fs) = let rest = find_field test fs in if test f then some f else rest

-- What json.Unmarshal makes of it: the field of a name, by the exact name and then without case
unfoldable pub field_of : (Str → Str) → Str → Option Field
field_of fold k = elim (find_field (λ f. str_eq (tag f) k) fields) [
  | some f ↦ some f
  | none ↦ find_field (λ f. str_eq (fold (tag f)) (fold k)) fields
]

-- null leaves a string as it is; a value of another type is an error.
abbrev put_value : Field → JsonValue → Config → Option Config
put_value f (json_string v) c = some (set_value f v c)
put_value f json_null c = some c
put_value f json_other c = none

-- A name that no field has is passed over.
abbrev put_in : Option Field → JsonValue → Config → Option Config
put_in none v c = some c
put_in (some f) v c = put_value f v c

unfoldable pub put_members : (Str → Str) → List (Str × JsonValue) → Config → Option Config
put_members fold [] c = some c
put_members fold (m ∷ ms) c = elim (put_in (field_of fold m.0) m.1 c) [
  | none ↦ none
  | some c' ↦ put_members fold ms c'
]

abbrev pub unmarshal_into : (Str → Str) → Option Document → Config → Option Config
unmarshal_into fold none c = none
unmarshal_into fold (some (object ms)) c = put_members fold ms c
unmarshal_into fold (some null_document) c = some c
unmarshal_into fold (some other_document) c = none

pub data ConfigError : Type 0 where
  not_read corrupt no_directory not_written : ConfigError

-- bytes.TrimPrefix of the byte order mark
unfoldable pub trim_bom : Bytes → Bytes
trim_bom [] = []
trim_bom (a ∷ []) = a ∷ []
trim_bom (a ∷ b ∷ []) = a ∷ b ∷ []
trim_bom (a ∷ b ∷ c ∷ rest) =
    if (a == 0xEF) && ((b == 0xBB) && (c == 0xBF)) then rest else a ∷ b ∷ c ∷ rest

abbrev of_decoded : Option Config → Result ConfigError Config
of_decoded none = err corrupt
of_decoded (some c) = ok c

-- Load
unfoldable pub load : Json → FileRead → Result ConfigError Config
unfolding trim_bom
load j no_file = ok empty_config
load j unreadable = err not_read
load j (contents raw) = of_decoded (unmarshal_into j.fold (j.decode (trim_bom raw)) empty_config)

-- Save, with whether the directory can be made and the file written: what the file holds then
unfoldable pub save : Json → Config → Bool → Bool → Result ConfigError Bytes
save j c made written =
    if not made
    then err no_directory
    else if not written
    then err not_written
    else ok (j.encode (to_members fields c))
