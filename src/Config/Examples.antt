-- ===== src/Config/Examples.antt =====
-- Settings that are saved and loaded, with a plain encoding in the place of JSON.
use eliaukvpn.Base.{
  ℕ, zero, suc, ap, ◌∙◌, List, ◌≡◌, refl, true, Option, none, some, [], ◌∷◌, ◌++◌, length, take,
  drop, take-append, drop-append,
}
use eliaukvpn.Base.Str.{Str, Bytes, text, str_eq}
use eliaukvpn.Base.Files.{contents}
use eliaukvpn.Base.Result.{ok}
use eliaukvpn.Config.{
  Config, empty_config, tag, omit_empty, value_of, to_members, JsonValue, json_string, json_null,
  json_other, Document, object, string_members, Json, field_of, put_members, load, save,
}
use eliaukvpn.Config.RoundTrip.{byte_order_mark, load-save}

-- Strings with their lengths before them
abbrev put_all : List Str → Bytes
put_all [] = []
put_all (s ∷ ss) = length s ∷ s ++ put_all ss

abbrev cons_to : Str → Option (List Str) → Option (List Str)
cons_to s none = none
cons_to s (some ss) = some (s ∷ ss)

abbrev got_all : ℕ → Bytes → Option (List Str)
got_all zero bs = some []
got_all (suc n) [] = none
got_all (suc n) (k ∷ bs) = cons_to (take k bs) (got_all n (drop k bs))

got_all-put_all : (ss : List Str) → got_all (length ss) (put_all ss) ≡ some ss
got_all-put_all [] = refl
got_all-put_all (s ∷ ss) =
    rw (take-append s (put_all ss), drop-append s (put_all ss), got_all-put_all ss) refl

-- The names and the values in turn
abbrev names_and_values : List (Str × Str) → List Str
names_and_values [] = []
names_and_values ((k, v) ∷ ms) = k ∷ v ∷ names_and_values ms

abbrev members_of : List Str → List (Str × JsonValue)
members_of [] = []
members_of (k ∷ []) = []
members_of (k ∷ v ∷ ss) = (k, json_string v) ∷ members_of ss

members_of-names_and_values :
    (ms : List (Str × Str)) → members_of (names_and_values ms) ≡ string_members ms
members_of-names_and_values [] = refl
members_of-names_and_values ((k, v) ∷ ms) =
    ap (◌∷◌ (k, json_string v)) (members_of-names_and_values ms)

abbrev document_of : Option (List Str) → Option Document
document_of none = none
document_of (some ss) = some (object (members_of ss))

abbrev encoded : List (Str × Str) → Bytes
encoded ms = 123 ∷ length (names_and_values ms) ∷ put_all (names_and_values ms)

abbrev decoded : Bytes → Option Document
decoded (b ∷ n ∷ rest) = document_of (got_all n rest)
decoded _ = none

decoded-encoded : (ms : List (Str × Str)) → decoded (encoded ms) ≡ some (object (string_members ms))
decoded-encoded ms =
    ap document_of (got_all-put_all (names_and_values ms))
    ∙ ap (λ l. some (object l)) (members_of-names_and_values ms)

abbrev plain : Json
plain = record {
  utf8 = λ s. true;
  fold = λ s. s;
  encode = encoded;
  decode = decoded;
  decode-encode = λ ms h. decoded-encoded ms;
  opens = λ ms. (length (names_and_values ms) ∷ put_all (names_and_values ms), refl);
}

abbrev settings : Config
settings = record {
  name = text "Ann";
  server = text "ws://s/ws";
  java = [];
  server_jar = text "server.jar";
  launcher = [];
  game_dir = [];
  update_url = [];
}

-- The members that are not omitted
abbrev saved : List (Str × Str)
saved =
    (text "name", text "Ann")
    ∷ (text "server", text "ws://s/ws")
    ∷ (text "server_jar", text "server.jar")
    ∷ []

load-save_example :
    (load plain (contents (encoded saved)) ≡ ok settings)
    × (load plain (contents (byte_order_mark ++ encoded saved)) ≡ ok settings)
unfolding save to_members tag omit_empty value_of str_eq
load-save_example = load-save plain settings true true (encoded saved) refl refl

-- A name that equals a tag only by its folding is found, an unknown name is passed over, and a value
-- that is no string is refused.
put_members_test :
    (put_members (λ s. text "name") ((text "colour", json_other) ∷ []) empty_config ≡ none)
    × (put_members (λ s. s) ((text "colour", json_other) ∷ (text "name", json_null) ∷ []) settings
        ≡ some settings)
    × (put_members (λ s. s) ((text "java", json_other) ∷ []) settings ≡ none)
unfolding put_members field_of tag str_eq
put_members_test = (refl, refl, refl)
