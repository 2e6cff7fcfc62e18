-- ===== src/Gui/Actions/Quiet.antt =====
-- The server processes after some effects, and the operations that leave them alone.
use eliaukvpn.Base.{
  ℕ, ◌≡◌, refl, ◌∙◌, inl, inr, Bool, true, false, not, ◌||◌, Option, none, some, List, [], ◌∷◌,
  ◌++◌, is_empty, In, Bool-cases, if◌then◌else◌, ◌==◌, arith,
}
use eliaukvpn.Base.Str.{Str, str_eq}
use eliaukvpn.Base.Trim.{trim_space}
use eliaukvpn.Agent.State.{Agent, Action}
use eliaukvpn.Gui.State.{
  App, World, Op, UiEffect, NoteText, set_note, ◌then_op◌, push, toggle_fullscreen, check_update,
  cancel_agent, close_quit, copy, save_config, tell_agent, start_server, stop_server, add_server,
  launch, save_failed, saved, saved_connecting, settings_incomplete,
}
use eliaukvpn.Gui.Game.{
  store_config, persist_game_paths, persist_launcher, detect_game, joinable_addr, note_started,
  add_to_launcher, launch_game,
}
use eliaukvpn.Gui.Actions.{
  cancel, with_settings, signal_restart, store_settings, save_settings, ask_agent, room_action,
}

abbrev pub without : ℕ → List ℕ → List ℕ
without pid [] = []
without pid (p ∷ ps) = if p == pid then without pid ps else p ∷ without pid ps

-- The server processes that run after some effects. Stop ends a process, by force where it does not
-- end by itself.
abbrev pub runs : List UiEffect → List ℕ → List ℕ
runs [] up = up
runs (start_server pid java jar ∷ es) up = runs es (pid ∷ up)
runs (stop_server pid ∷ es) up = runs es (without pid up)
runs (e ∷ es) up = runs es up

pub In-without :
    (pid p : ℕ) (ps : List ℕ) → In pid (without p ps) → In pid ps × ((p == pid) ≡ false)
In-without pid p [] i = absurd i.1
In-without pid p (q ∷ ps) i = elim (Bool-cases (q == p)) [
  | inl same ↦ let (later, differs) = In-without pid p ps (rw same at i) in (inr later, differs)
  | inr other' ↦ elim (rw other' at i) [
    | inl e ↦ (inl e, ground (arith, e, other'))
    | inr j ↦ let (later, differs) = In-without pid p ps j in (inr later, differs)
  ]
]

pub runs-append : (xs ys : List UiEffect) (up : List ℕ) → runs (xs ++ ys) up ≡ runs ys (runs xs up)
runs-append [] ys up = refl
runs-append (start_server pid java jar ∷ xs) ys up = runs-append xs ys (pid ∷ up)
runs-append (stop_server pid ∷ xs) ys up = runs-append xs ys (without pid up)
runs-append (push ∷ xs) ys up = runs-append xs ys up
runs-append (toggle_fullscreen ∷ xs) ys up = runs-append xs ys up
runs-append (check_update ∷ xs) ys up = runs-append xs ys up
runs-append (cancel_agent ∷ xs) ys up = runs-append xs ys up
runs-append (close_quit ∷ xs) ys up = runs-append xs ys up
runs-append (copy s ∷ xs) ys up = runs-append xs ys up
runs-append (save_config c ∷ xs) ys up = runs-append xs ys up
runs-append (tell_agent acts' ∷ xs) ys up = runs-append xs ys up
runs-append (add_server n ad d ∷ xs) ys up = runs-append xs ys up
runs-append (launch e ∷ xs) ys up = runs-append xs ys up

-- What an operation does and leaves, where it leaves the servers alone
pub record QuietAt (a : App) (r : List UiEffect × App) : Type 0 where
  pub same : r.1.mc_srv ≡ a.mc_srv
  pub calm : (up : List ℕ) → runs r.0 up ≡ up

abbrev pub Quiet : Op → Type 0
Quiet f = (a : App) → QuietAt a (f a)

quietly : {a b : App} → b.mc_srv ≡ a.mc_srv → QuietAt a ([], b)
quietly e = record { same = e; calm = λ up. refl }

if-QuietAt :
    (b : Bool) {a : App} {r s : List UiEffect × App}
    → QuietAt a r
    → QuietAt a s
    → QuietAt a (if b then r else s)
if-QuietAt true p q = p
if-QuietAt false p q = q

pub then_op-Quiet : (f g : Op) → Quiet f → Quiet g → Quiet (f then_op g)
then_op-Quiet f g p q a =
    let first = p a in
    let second = q (f a).1 in
    record {
      same = second.same ∙ first.same;
      calm = λ up.
          runs-append (f a).0 (g (f a).1).0 up ∙ second.calm (runs (f a).0 up) ∙ first.calm up;
    }

pub cancel-calm : (ag : Option Agent) (up : List ℕ) → runs (cancel ag) up ≡ up
cancel-calm none up = refl
cancel-calm (some ag) up = refl

module _ (w : World) where
  pub set_note-Quiet : (text : NoteText) (good : Bool) → Quiet (set_note w text good)
  unfolding set_note
  set_note-Quiet text good a = quietly refl

  pub store_config-Quiet : Quiet (store_config w)
  unfolding store_config set_note
  store_config-Quiet a = record { same = ground arith; calm = λ up. refl }

  pub persist_game_paths-Quiet : (java jar : Str) → Quiet (persist_game_paths w java jar)
  unfolding persist_game_paths store_config set_note
  persist_game_paths-Quiet java jar a = record { same = ground arith; calm = λ up. refl }

  pub persist_launcher-Quiet :
      (launcher game_dir : Str) → Quiet (persist_launcher w launcher game_dir)
  unfolding persist_launcher store_config set_note
  persist_launcher-Quiet launcher game_dir a = record { same = ground arith; calm = λ up. refl }

  pub detect_game-Quiet : Quiet (detect_game w)
  unfolding detect_game
  detect_game-Quiet a =
      then_op-Quiet _ _ (persist_game_paths-Quiet w.found_java w.found_jar)
        (then_op-Quiet _ _ (persist_launcher-Quiet w.found_launcher w.found_game_dir)
          (set_note-Quiet _ _))
        a

  pub note_started-Quiet : Quiet (note_started w)
  unfolding note_started set_note
  note_started-Quiet a = quietly refl

  pub launch_game-Quiet : (launcher : Str) → Quiet (launch_game w launcher)
  unfolding launch_game set_note
  launch_game-Quiet launcher a = record { same = refl; calm = λ up. refl }

  pub add_to_launcher-Quiet : (game_dir : Str) → Quiet (add_to_launcher w game_dir)
  unfolding add_to_launcher set_note
  add_to_launcher-Quiet game_dir a = elim (Bool-cases (is_empty (joinable_addr w a))) [
    | inl none' ↦ rw (add_to_launcher, none') (quietly refl)
    | inr there ↦ rw (add_to_launcher, there) (record { same = refl; calm = λ up. refl })
  ]

  pub signal_restart-Quiet : Quiet signal_restart
  unfolding signal_restart
  signal_restart-Quiet a = record { same = refl; calm = cancel-calm a.ag }

  pub store_settings-Quiet : (restart : Bool) → Quiet (store_settings w restart)
  unfolding store_settings
  store_settings-Quiet restart a =
      let q = if-QuietAt (not w.saves) (set_note-Quiet save_failed false a) (
        if-QuietAt restart
          (then_op-Quiet signal_restart (set_note w saved_connecting true) signal_restart-Quiet
            (set_note-Quiet saved_connecting true) a)
          (set_note-Quiet saved true a)) in
      record { same = q.same; calm = q.calm }

  pub save_settings-Quiet :
      (name server update_url : Str) → Quiet (save_settings w name server update_url)
  unfolding save_settings with_settings
  save_settings-Quiet name server update_url a =
      let changed =
        not (str_eq (trim_space name) a.cfg.name)
        || not (str_eq (trim_space server) a.cfg.server) in
      let b = with_settings (trim_space name) (trim_space server) (trim_space update_url) a in
      let q = store_settings-Quiet changed b in
      if-QuietAt (is_empty (trim_space name) || is_empty (trim_space server))
        {s = store_settings w changed b} (set_note-Quiet settings_incomplete false a)
        (record { same = q.same; calm = q.calm })

  pub ask_agent-Quiet :
      (done : NoteText) (o : Option Agent) (asked : Option (List Action))
      → Quiet (ask_agent w done o asked)
  unfolding ask_agent set_note
  ask_agent-Quiet done none asked a = quietly refl
  ask_agent-Quiet done (some ag) none a = quietly refl
  ask_agent-Quiet done (some ag) (some actions) a = record { same = refl; calm = λ up. refl }

  pub room_action-Quiet :
      (asked : Option (List Action)) (done : NoteText) → Quiet (room_action w asked done)
  unfolding room_action
  room_action-Quiet asked done a = ask_agent-Quiet done a.ag asked a
