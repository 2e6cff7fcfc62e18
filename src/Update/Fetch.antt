-- ===== src/Update/Fetch.antt =====
-- internal/update/update.go: Check, Download, and what Install starts. The web server's answer, the
-- decoder of JSON and SHA-256 are what the caller gives.
use eliaukvpn.Base.{
  ℕ, Bool, true, not, ◌&&◌, ◌||◌, Option, none, some, ◌∷◌, [], ◌++◌, ◌^◌, take, is_empty, ◌==◌,
  if◌then◌else◌,
}
use eliaukvpn.Base.Str.{Str, Bytes, text, str_eq}
use eliaukvpn.Base.Hex.{hex_encode}
use eliaukvpn.Base.Trim.{trim_space, to_upper}
use eliaukvpn.Base.Result.{Result, ok, err}
use eliaukvpn.Update.{
  Manifest, UpdateError, no_feed, invalid_feed, unreachable, bad_status, bad_manifest,
  missing_fields, no_temp, interrupted, not_closed, digest_mismatch,
}

-- What client.Do or client.Get brings: an error, or a status, the bytes of the body that arrive, and
-- whether the body arrives whole.
pub data Reply : Type 0 where
  bad_address no_answer : Reply
  reply : ℕ → Bytes → Bool → Reply

-- The first value of a body, as json.Decoder reads it
abbrev pub ManifestDecoder : Type 0
ManifestDecoder = Bytes → Option Manifest

abbrev lacks_fields : Manifest → Bool
lacks_fields m = is_empty m.version || (is_empty m.url || is_empty m.sha256)

-- Check, once the body is decoded
unfoldable pub check_fields : Option Manifest → Result UpdateError Manifest
check_fields none = err bad_manifest
check_fields (some m) = if lacks_fields m then err missing_fields else ok m

-- Check
unfoldable pub check : ManifestDecoder → Str → Reply → Result UpdateError Manifest
unfolding check_fields
check decode feed r = if is_empty (trim_space feed) then err no_feed else elim r [
  | bad_address ↦ err invalid_feed
  | no_answer ↦ err unreachable
  | reply status body whole ↦
      if status == 200 then check_fields (decode (take (2 ^ 20) body)) else err (bad_status status)
]

-- What the system does for Download: the name of the temporary file, if it can be made, and whether
-- it can be closed.
pub record TempFile : Type 0 where
  pub name : Option Str
  pub closes : Bool

-- strings.EqualFold where one side is hexadecimal: no letter of it folds to one that is not ASCII.
unfoldable pub equal_fold : Str → Str → Bool
equal_fold a b = str_eq (to_upper a) (to_upper b)

-- A file that was downloaded, with what it holds
pub record Downloaded : Type 0 where
  pub name : Str
  pub content : Bytes

-- Download, from the copy on
unfoldable pub keep_verified :
    (Bytes → Bytes) → Manifest → Str → Bool → Bytes → Bool → Result UpdateError Downloaded
unfolding equal_fold
keep_verified sha256 m name closes body whole =
    if not whole
    then err interrupted
    else if not closes
    then err not_closed
    else if equal_fold (hex_encode (sha256 body)) m.sha256
    then ok (record { name = name; content = body })
    else err digest_mismatch

-- Download
unfoldable pub download :
    (Bytes → Bytes) → Manifest → Reply → TempFile → Result UpdateError Downloaded
unfolding keep_verified
download sha256 m r f = elim r [
  | bad_address ↦ err unreachable
  | no_answer ↦ err unreachable
  | reply status body whole ↦ if not (status == 200) then err (bad_status status) else elim f.name [
    | none ↦ err no_temp
    | some name ↦ keep_verified sha256 m name f.closes body whole
  ]
]

abbrev quoted : Str → Str
quoted s = 34 ∷ s ++ 34 ∷ []

abbrev crlf : Str
crlf = 13 ∷ 10 ∷ []

-- installScript
unfoldable pub install_script : Str → Str → Bool → Str
install_script new_exe current_exe relaunch =
    text "@echo off"
    ++ crlf
    ++ text "ping 127.0.0.1 -n 2 >nul"
    ++ crlf
    ++ text "copy /y "
    ++ quoted new_exe
    ++ text " "
    ++ quoted current_exe
    ++ text " >nul"
    ++ crlf
    ++ (if relaunch
        then text "start " ++ quoted [] ++ text " " ++ quoted current_exe ++ crlf
        else [])
    ++ text "del "
    ++ quoted new_exe
    ++ crlf

-- What the system does for Install: whether the script can be made and written, closed, and run
pub record ScriptRun : Type 0 where
  pub made : Bool
  pub written : Bool
  pub closes : Bool
  pub starts : Bool

-- Install: the script that runs, none where it fails
unfoldable pub install : ScriptRun → Str → Str → Option Str
unfolding install_script
install run new_exe current_exe =
    if run.made && run.written && run.closes && run.starts
    then some (install_script new_exe current_exe true)
    else none
