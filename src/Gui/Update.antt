-- ===== src/Gui/Update.antt =====
-- cmd/gui/main.go: checkUpdate with what it stages, and installPendingUpdate.
pub mod Genuine
use eliaukvpn.Base.{
  ℕ, ◌≡◌, Bool, true, false, not, Option, none, some, List, ◌∷◌, [], length, is_empty, ◌==◌,
  if◌then◌else◌, In,
}
use eliaukvpn.Base.Str.{Str, Bytes}
use eliaukvpn.Base.Hex.{hex_decode}
use eliaukvpn.Base.Result.{Result, ok, err}
use eliaukvpn.Update.{Manifest, UpdateError, verify, newer}
use eliaukvpn.Update.Fetch.{
  Reply, ManifestDecoder, TempFile, Downloaded, ScriptRun, check, download, install,
}

-- The text of the About panel, by what it says
pub data UpdateStatus : Type 0 where
  idle checking no_source up_to_date : UpdateStatus
  check_failed download_failed : UpdateError → UpdateStatus
  downloading downloaded : UpdateStatus

-- updExe and the fields beside it; an empty `exe` is no pending update.
pub record Pending : Type 0 where
  pub exe : Str
  pub version : Str
  pub status : UpdateStatus
  pub ready : Bool
  pub notes : Str

abbrev pub nothing_pending : UpdateStatus → Pending
nothing_pending s = record { exe = []; version = []; status = s; ready = false; notes = [] }

-- The libraries, the compiled-in key in hexadecimal, and the version that runs
pub record Updater : Type 0 where
  pub decode : ManifestDecoder
  pub sha256 : Bytes → Bytes
  pub ed_verify : Bytes → Bytes → Bytes → Bool
  pub update_pub_key : Str
  pub current : Str

abbrev of_size : Bytes → Bytes
of_size raw = if length raw == 32 then raw else []

-- updatePublicKey; `nil` is the empty key.
unfoldable pub update_public_key : Str → Bytes
update_public_key hex = elim (hex_decode hex) [ none ↦ [] | some raw ↦ of_size raw ]

-- What the network and the system answer in one run of checkUpdate
pub record Answers : Type 0 where
  pub feed_reply : Reply
  pub exe_reply : Reply
  pub temp : TempFile

-- checkUpdate after Download
unfoldable pub after_download : Manifest → Result UpdateError Downloaded → Pending
after_download m (ok d) = record {
  exe = d.name;
  version = m.version;
  status = downloaded;
  ready = true;
  notes = m.notes;
}
after_download m (err e) = record {
  exe = [];
  version = m.version;
  status = download_failed e;
  ready = false;
  notes = [];
}

-- checkUpdate after Verify
unfoldable pub after_verify :
    Updater → Answers → Manifest → Result UpdateError (Unit {0}) → List Pending
unfolding after_download
after_verify u a m (err e) = nothing_pending (check_failed e) ∷ []
after_verify u a m (ok t) =
    if newer m.version u.current
    then record {
      exe = [];
      version = m.version;
      status = downloading;
      ready = false;
      notes = m.notes;
    }
      ∷ after_download m (download u.sha256 m a.exe_reply a.temp)
      ∷ []
    else nothing_pending up_to_date ∷ []

-- checkUpdate after Check
unfoldable pub after_check : Updater → Answers → Result UpdateError Manifest → List Pending
unfolding after_verify
after_check u a (err e) = nothing_pending (check_failed e) ∷ []
after_check u a (ok m) =
    after_verify u a m (verify u.ed_verify m (update_public_key u.update_pub_key))

-- checkUpdate: what it gives setUpdate, in order
unfoldable pub check_update : Updater → Str → Answers → List Pending
unfolding after_check
check_update u feed a =
    nothing_pending checking
    ∷ (if is_empty feed
        then nothing_pending no_source ∷ []
        else after_check u a (check u.decode feed a.feed_reply))

-- installPendingUpdate, with the path of the running program if the system knows it: the script that
-- runs, if one does.
unfoldable pub install_pending : Option Str → ScriptRun → Pending → Option Str
install_pending current_exe run p =
    if is_empty p.exe
    then none
    else elim current_exe [ none ↦ none | some cur ↦ install run p.exe cur ]

-- What can be pending, with any number of checks at once: each runs in its own goroutine, and
-- setUpdate writes all fields under the lock.
pub data Staged (u : Updater) : Pending → Type 0 where
  at_start : Staged u (nothing_pending idle)
  set_update :
      {p q : Pending} (feed : Str) (a : Answers)
      → Staged u p
      → In q (check_update u feed a)
      → Staged u q
