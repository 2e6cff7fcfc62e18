-- ===== src/Gui/Actions.antt =====
-- cmd/gui/main.go: the start, the actions of the frontend (internal/webviewhost/action.go) and the
-- end. The event loop handles one action after another.
pub mod Quiet
pub mod Servers
use eliaukvpn.Base.{
  ℕ, Bool, true, false, not, ◌&&◌, ◌||◌, Option, none, some, List, [], ◌∷◌, ◌++◌, is_empty,
  if◌then◌else◌,
}
use eliaukvpn.Base.Str.{Str, text, str_eq}
use eliaukvpn.Base.Trim.{trim_space}
use eliaukvpn.Config.{Config}
use eliaukvpn.Agent.State.{Agent, Action}
use eliaukvpn.Agent.Rooms.{create_room, join_room, leave_room}
use eliaukvpn.Gui.Update.{nothing_pending, idle}
use eliaukvpn.Gui.State.{
  App, World, Op, UiEffect, NoteText, set_note, ◌then_op◌, push, toggle_fullscreen, check_update,
  cancel_agent, close_quit, copy, save_config, tell_agent, stop_server, copied, settings_incomplete,
  saved, saved_connecting, save_failed, not_connected, room_created, room_joined, room_left,
  room_failed,
}
use eliaukvpn.Gui.Game.{or_found, detect_game, start_game, stop_game, add_to_launcher, launch_game}

-- The settings of run: flags before the file, and the bundled server where there is none
unfoldable pub start_config : Str → Str → Str → Config → Config
start_config name_flag server_flag default_server c = record c {
  name = or_found name_flag c.name;
  server = or_found (or_found server_flag c.server) default_server;
}

-- The state that run builds
unfoldable pub new_app : World → Config → App
new_app w c = record {
  cfg = c;
  ui_ready = false;
  ag = none;
  note = none;
  mc_java = or_found c.java w.found_java;
  mc_jar = or_found c.server_jar w.found_jar;
  mc_launcher = or_found c.launcher w.found_launcher;
  mc_game_dir = or_found c.game_dir w.found_game_dir;
  mc_srv = none;
  mc_tail = [];
  pending = nothing_pending idle;
  restart = false;
  quitting = false;
}

-- Cancelling the running agent's context, if one runs
abbrev pub cancel : Option Agent → List UiEffect
cancel none = []
cancel (some ag) = cancel_agent ∷ []

-- signalRestart
unfoldable pub signal_restart : Op
signal_restart a = (cancel a.ag, record a { restart = true })

-- The settings that saveSettings stores
unfoldable pub with_settings : Str → Str → Str → App → App
with_settings name server update_url a = record a {
  cfg = record (a.cfg) { name = name; server = server; update_url = update_url };
}

-- saveSettings after the settings are stored; `restart` says that name or server changed.
unfoldable pub store_settings : World → Bool → Op
unfolding signal_restart set_note
store_settings w restart a =
    let (es, b) =
      if not w.saves
      then set_note w save_failed false a
      else if restart
      then (signal_restart then_op set_note w saved_connecting true) a
      else set_note w saved true a in
    (save_config a.cfg ∷ es, b)

-- saveSettings
unfoldable pub save_settings : World → Str → Str → Str → Op
unfolding with_settings store_settings set_note
save_settings w name server update_url a =
    let n = trim_space name in
    let s = trim_space server in
    if is_empty n || is_empty s
    then set_note w settings_incomplete false a
    else store_settings w (not (str_eq n a.cfg.name) || not (str_eq s a.cfg.server))
        (with_settings n s (trim_space update_url) a)

-- roomAction, with the agent that runs and what it sends; `none` where it refuses.
unfoldable pub ask_agent : World → NoteText → Option Agent → Option (List Action) → Op
unfolding set_note
ask_agent w done none asked a = set_note w not_connected false a
ask_agent w done (some ag) none a = set_note w room_failed false a
ask_agent w done (some ag) (some actions) a =
    let (es, b) = set_note w done true a in (tell_agent actions ∷ es, b)

-- roomAction
unfoldable pub room_action : World → Option (List Action) → NoteText → Op
unfolding ask_agent
room_action w asked done a = ask_agent w done a.ag asked a

abbrev pub stop_tracked : Option ℕ → List UiEffect
stop_tracked none = []
stop_tracked (some pid) = stop_server pid ∷ []

-- quit
unfoldable pub quit : Op
quit a = if a.quitting then ([], a) else (
  cancel a.ag ++ (stop_tracked a.mc_srv ++ close_quit ∷ []),
  record a { mc_srv = none; quitting = true },
)

-- Action, by its type; `other` is a type that no case takes.
pub data UiAction : Type 0 where
  act_ready act_quit act_check_update act_apply_update act_room_create act_room_leave : UiAction
  act_game_detect act_srv_stop act_fullscreen other : UiAction
  act_copy act_room_join act_mc_add act_launch : Str → UiAction
  act_srv_start : Str → Str → UiAction
  act_save : Str → Str → Str → UiAction

-- handleAction
unfoldable pub handle_action : World → UiAction → Op
unfolding set_note save_settings quit room_action detect_game start_game stop_game add_to_launcher
    launch_game create_room join_room leave_room
handle_action w act_ready a = (push ∷ [], record a { ui_ready = true })
handle_action w (act_copy s) a = let (es, b) = set_note w copied true a in (copy s ∷ es, b)
handle_action w (act_save name server url) a = save_settings w name server url a
handle_action w act_quit a = quit a
handle_action w act_check_update a = (check_update ∷ [], a)
handle_action w act_apply_update a = quit a
handle_action w act_room_create a = room_action w (some create_room) room_created a
handle_action w (act_room_join code) a = room_action w (join_room code) room_joined a
handle_action w act_room_leave a = room_action w (some leave_room) room_left a
handle_action w act_game_detect a = detect_game w a
handle_action w (act_srv_start java jar) a = start_game w java jar a
handle_action w act_srv_stop a = stop_game w a
handle_action w (act_mc_add game_dir) a = add_to_launcher w game_dir a
handle_action w (act_launch launcher) a = launch_game w launcher a
handle_action w act_fullscreen a = (toggle_fullscreen ∷ push ∷ [], a)
handle_action w other a = ([], a)
