-- ===== src/Gui/Update/Genuine.antt =====
-- What the program installs when it ends.
use eliaukvpn.Base.{
  ◌≡◌, refl, sym, ap, ◌∙◌, subst, inl, inr, Bool, true, false, ◌&&◌, Option, some, [], length,
  is_empty, In, Bool-cases, Option-cases, ◌==◌,
}
use eliaukvpn.Base.Str.{Str, Bytes}
use eliaukvpn.Base.Hex.{hex_decode, hex_encode}
use eliaukvpn.Base.Result.{Result, ok, err}
use eliaukvpn.Update.{Manifest, UpdateError, signing_message, verify, newer}
use eliaukvpn.Update.Fetch.{
  Reply, bad_address, no_answer, reply, TempFile, Downloaded, ScriptRun, check, download,
  keep_verified, equal_fold, install, install_script,
}
use eliaukvpn.Update.Signature.{verify_iff}
use eliaukvpn.Gui.Update.{
  Pending, Updater, Answers, Staged, at_start, set_update, update_public_key, after_download,
  after_verify, after_check, check_update, install_pending,
}

some_injective : {a b : Str} → ◌≡◌ {A = Option Str} (some a) (some b) → a ≡ b
some_injective h = cc

ok_injective : {a b : Downloaded} → ◌≡◌ {A = Result UpdateError Downloaded} (ok a) (ok b) → a ≡ b
ok_injective h = cc

-- A download that is kept has the digest of the manifest.
keep_verified_lem :
    (sha256 : Bytes → Bytes) (m : Manifest) (name : Str) (closes : Bool) (body : Bytes)
    (whole : Bool) (d : Downloaded)
    → keep_verified sha256 m name closes body whole ≡ ok d
    → equal_fold (hex_encode (sha256 d.content)) m.sha256 ≡ true
unfolding keep_verified
keep_verified_lem sha256 m name closes body false d h = cc
keep_verified_lem sha256 m name false body true d h = cc
keep_verified_lem sha256 m name true body true d h =
    elim (Bool-cases (equal_fold (hex_encode (sha256 body)) m.sha256)) [
      | inl same ↦
          subst (λ x. equal_fold (hex_encode (sha256 x.content)) m.sha256 ≡ true)
            (ok_injective (rw same at h)) same
      | inr other ↦ cc (rw other at h)
    ]

download_lem :
    (sha256 : Bytes → Bytes) (m : Manifest) (r : Reply) (f : TempFile) (d : Downloaded)
    → download sha256 m r f ≡ ok d
    → equal_fold (hex_encode (sha256 d.content)) m.sha256 ≡ true
unfolding download
download_lem sha256 m bad_address f d h = cc
download_lem sha256 m no_answer f d h = cc
download_lem sha256 m (reply status body whole) f d h = elim (Bool-cases (status == 200)) [
  | inr bad ↦ cc (rw bad at h)
  | inl fine ↦ elim (Option-cases f.name) [
    | inl none' ↦ cc (rw (fine, none') at h)
    | inr (name, is) ↦ keep_verified_lem sha256 m name f.closes body whole d (rw (fine, is) at h)
  ]
]

-- An executable that one run of checkUpdate staged: its feed named it in a manifest that is signed
-- under the compiled-in key and newer than the program, and it was downloaded with the manifest's
-- digest.
pub record Genuine (u : Updater) (p : Pending) : Type 0 where
  pub feed : Str
  pub answers : Answers
  pub manifest : Manifest
  pub file : Downloaded
  pub sig : Bytes
  pub fed : check u.decode feed answers.feed_reply ≡ ok manifest
  pub fetched : download u.sha256 manifest answers.exe_reply answers.temp ≡ ok file
  pub read : hex_decode manifest.signature ≡ some sig
  pub signed :
      u.ed_verify (update_public_key u.update_pub_key) (signing_message manifest) sig ≡ true
  pub later : newer manifest.version u.current ≡ true
  pub digest : equal_fold (hex_encode (u.sha256 file.content)) manifest.sha256 ≡ true
  pub named : p.exe ≡ file.name
  pub said : p.version ≡ manifest.version

module _ (u : Updater) (key_size : length (update_public_key u.update_pub_key) ≡ 32) where
  abbrev key : Bytes
  key = update_public_key u.update_pub_key

  pending : {p : Pending} → is_empty p.exe ≡ false → p.exe ≡ [] → Genuine u p
  pending some' none' = cc (rw none' at some')

  from_download :
      (feed : Str) (a : Answers) (m : Manifest) (r : Result UpdateError Downloaded) (p : Pending)
      → check u.decode feed a.feed_reply ≡ ok m
      → verify u.ed_verify m key ≡ ok tt
      → newer m.version u.current ≡ true
      → download u.sha256 m a.exe_reply a.temp ≡ r
      → p ≡ after_download m r
      → is_empty p.exe ≡ false
      → Genuine u p
  unfolding after_download
  from_download feed a m (err e) p fed good later got is some' = pending some' (ap (λ x. x.exe) is)
  from_download feed a m (ok d) p fed good later got is some' =
      let (signed, found) = (verify_iff u.ed_verify m key key_size).0 good in
      let (sig, read, holds) = found in
      record {
        feed = feed;
        answers = a;
        manifest = m;
        file = d;
        sig = sig;
        fed = fed;
        fetched = got;
        read = read;
        signed = holds;
        later = later;
        digest = download_lem u.sha256 m a.exe_reply a.temp d got;
        named = ap (λ x. x.exe) is;
        said = ap (λ x. x.version) is;
      }

  from_verify :
      (feed : Str) (a : Answers) (m : Manifest) (v : Result UpdateError (Unit {0})) (p : Pending)
      → check u.decode feed a.feed_reply ≡ ok m
      → verify u.ed_verify m key ≡ v
      → In p (after_verify u a m v)
      → is_empty p.exe ≡ false
      → Genuine u p
  unfolding after_verify
  from_verify feed a m (err e) p fed is (inl i) some' = pending some' (ap (λ x. x.exe) i)
  from_verify feed a m (err e) p fed is (inr i) some' = absurd i.1
  from_verify feed a m (ok tt) p fed is i some' = elim (Bool-cases (newer m.version u.current)) [
    | inr old ↦ elim (rw old at i) [
      | inl i' ↦ pending some' (ap (λ x. x.exe) i')
      | inr i' ↦ absurd i'.1
    ]
    | inl later ↦ elim (rw later at i) [
      | inl first ↦ pending some' (ap (λ x. x.exe) first)
      | inr (inl last) ↦
          from_download feed a m (download u.sha256 m a.exe_reply a.temp) p fed is later refl last
            some'
      | inr (inr i') ↦ absurd i'.1
    ]
  ]

  from_check :
      (feed : Str) (a : Answers) (c : Result UpdateError Manifest) (p : Pending)
      → check u.decode feed a.feed_reply ≡ c
      → In p (after_check u a c)
      → is_empty p.exe ≡ false
      → Genuine u p
  unfolding after_check
  from_check feed a (err e) p is (inl i) some' = pending some' (ap (λ x. x.exe) i)
  from_check feed a (err e) p is (inr i) some' = absurd i.1
  from_check feed a (ok m) p is i some' =
      from_verify feed a m (verify u.ed_verify m key) p is refl i some'

  from_update :
      (feed : Str) (a : Answers) (p : Pending)
      → In p (check_update u feed a)
      → is_empty p.exe ≡ false
      → Genuine u p
  unfolding check_update
  from_update feed a p (inl i) some' = pending some' (ap (λ x. x.exe) i)
  from_update feed a p (inr i) some' = elim (Bool-cases (is_empty feed)) [
    | inl none' ↦ elim (rw none' at i) [
      | inl i' ↦ pending some' (ap (λ x. x.exe) i')
      | inr i' ↦ absurd i'.1
    ]
    | inr given ↦ from_check feed a (check u.decode feed a.feed_reply) p refl (rw given at i) some'
  ]

  staged-Genuine : {p : Pending} → Staged u p → is_empty p.exe ≡ false → Genuine u p
  staged-Genuine at_start some' = cc
  staged-Genuine (set_update feed a s i) some' = from_update feed a _ i some'

install_lem :
    (run : ScriptRun) (new_exe cur script : Str)
    → install run new_exe cur ≡ some script
    → script ≡ install_script new_exe cur true
unfolding install
install_lem run new_exe cur script h =
    elim (Bool-cases (run.made && run.written && run.closes && run.starts)) [
      | inl runs ↦ sym (some_injective (rw runs at h))
      | inr fails ↦ cc (rw fails at h)
    ]

-- With a 32-byte key compiled in, however the checks for updates interleave: a script that runs when
-- the program ends puts in place of the program a file that some check downloaded, whole and with
-- the digest of a manifest that is signed under that key and whose version is newer.
pub install_genuine :
    (u : Updater) (p : Pending) (current_exe : Option Str) (run : ScriptRun) (script : Str)
    → length (update_public_key u.update_pub_key) ≡ 32
    → Staged u p
    → install_pending current_exe run p ≡ some script
    → (g : Genuine u p) × (cur : Str) × (current_exe ≡ some cur)
      × (script ≡ install_script g.file.name cur true)
unfolding install_pending
install_genuine u p current_exe run script size s h = elim (Bool-cases (is_empty p.exe)) [
  | inl none' ↦ cc (rw none' at h)
  | inr some' ↦ elim (Option-cases current_exe) [
    | inl unknown ↦ cc (rw (some', unknown) at h)
    | inr (cur, known) ↦
        let g = staged-Genuine u size s some' in
        (
          g,
          cur,
          known,
          install_lem run p.exe cur script (rw (some', known) at h)
              ∙ ap (λ e. install_script e cur true) g.named,
        )
  ]
]
