-- ===== src/Gui/State.antt =====
-- cmd/gui/main.go: the program's state under its lock, what it does to the outside, and what the
-- outside answers.
use eliaukvpn.Base.{
  ℕ, Bool, false, Option, none, some, List, [], ◌∷◌, ◌++◌, drop, length, ◌-◌, ltb, if◌then◌else◌,
}
use eliaukvpn.Base.Str.{Str}
use eliaukvpn.Config.{Config}
use eliaukvpn.Agent.State.{Agent, Action}
use eliaukvpn.Gui.Update.{Pending}

-- The text of a note, by what it says
pub data NoteText : Type 0 where
  copied settings_incomplete saved saved_connecting save_failed : NoteText
  not_connected room_created room_joined room_left room_failed : NoteText
  nothing_found jar_found_only java_found_only found : NoteText
  already_running paths_missing start_failed started server_stopped not_running : NoteText
  no_address add_failed launched launch_failed : NoteText
  started_at : Str → NoteText
  added : Str → Str → NoteText

pub record Note : Type 0 where
  pub text : NoteText
  pub good : Bool
  pub at : ℕ

-- app, with the agent that runs, its cancel function beside it. `mc_srv` is the process of the
-- server; `restart` says whether restartCh holds its token, `quitting` whether quitOnce is spent.
pub record App : Type 0 where
  pub cfg : Config
  pub ui_ready : Bool
  pub ag : Option Agent
  pub note : Option Note
  pub mc_java : Str
  pub mc_jar : Str
  pub mc_launcher : Str
  pub mc_game_dir : Str
  pub mc_srv : Option ℕ
  pub mc_tail : List Str
  pub pending : Pending
  pub restart : Bool
  pub quitting : Bool

pub data UiEffect : Type 0 where
  push toggle_fullscreen check_update cancel_agent close_quit : UiEffect
  copy : Str → UiEffect
  save_config : Config → UiEffect
  tell_agent : List Action → UiEffect
  start_server : ℕ → Str → Str → UiEffect
  stop_server : ℕ → UiEffect
  add_server : Str → Str → Str → UiEffect
  launch : Str → UiEffect

-- The clock, the processes that run, what detection finds, and whether saving, starting a server,
-- adding to the launcher's list and starting the launcher succeed
pub record World : Type 0 where
  pub now : ℕ
  pub alive : ℕ → Bool
  pub found_java : Str
  pub found_jar : Str
  pub found_launcher : Str
  pub found_game_dir : Str
  pub saves : Bool
  pub spawned : Option ℕ
  pub adds : Bool
  pub launches : Bool

-- An operation: what it does, and the state after it
abbrev pub Op : Type 0
Op = App → List UiEffect × App

-- One operation after another
infixr 5 ◌then_op◌
abbrev pub ◌then_op◌ : Op → Op → Op
◌then_op◌ f g a = let (es, b) = f a in let (es', c) = g b in (es ++ es', c)

-- setNote
unfoldable pub set_note : World → NoteText → Bool → Op
set_note w text good a =
    ([], record a { note = some (record { text = text; good = good; at = w.now }) })

-- The method gameLogf returns: the server's output line goes into the tail.
unfoldable pub game_log : Str → App → App
game_log line a =
    let tail = a.mc_tail ++ line ∷ [] in
    record a { mc_tail = if ltb 20 (length tail) then drop (length tail - 20) tail else tail }

-- mcSrv != nil && mcSrv.Running()
unfoldable pub server_running : World → App → Bool
server_running w a = elim a.mc_srv [ none ↦ false | some pid ↦ w.alive pid ]
