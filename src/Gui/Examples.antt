-- ===== src/Gui/Examples.antt =====
-- Runs of the window's program, and the theorems on it applied to them.
use eliaukvpn.Base.{
  ℕ, ◌≡◌, refl, ◌⊎◌, inl, inr, Bool, true, false, some, List, [], ◌∷◌, ◌++◌, replicate, length, ◌≤◌,
  ◌==◌, arith,
}
use eliaukvpn.Base.Str.{Str, Bytes, text, str_eq}
use eliaukvpn.Base.Hex.{hex_decode, hex_encode}
use eliaukvpn.Base.Trim.{trim_left, trim_right, trim_space, to_upper}
use eliaukvpn.Config.{empty_config}
use eliaukvpn.Update.{
  Manifest, verify, verify_with, newer, numbers_of, split_version, fields_of, atoi, digits_value,
  newer_numbers, signing_message,
}
use eliaukvpn.Update.Fetch.{
  reply, ScriptRun, check, check_fields, download, keep_verified, equal_fold, install,
  install_script,
}
use eliaukvpn.Gui.Update.{
  Pending, Updater, Answers, Staged, at_start, set_update, downloaded, update_public_key,
  after_download, after_verify, after_check, check_update, install_pending,
}
use eliaukvpn.Gui.Update.Genuine.{Genuine, install_genuine}
use eliaukvpn.Gui.State.{App, World, set_note, server_running}
use eliaukvpn.Gui.Game.{
  joinable_addr, store_config, persist_game_paths, note_started, started_as, start_new, start_game,
}
use eliaukvpn.Gui.Game.Tail.{log_all, last, log_all-last}
use eliaukvpn.Gui.Actions.{new_app, quit, act_srv_start, handle_action}
use eliaukvpn.Gui.Actions.Quiet.{runs}
use eliaukvpn.Gui.Actions.Servers.{Loop, at_start, acts, one_server, quit_leaves_none}
use eliaukvpn.Gui.Lifecycle.{
  Connection, Life, Lives, starts, loop_steps, ui_steps, on_loop, on_ui, running, at_rest,
}
use eliaukvpn.Gui.Lifecycle.Settings.{Pends, settings_not_lost}

abbrev manifest : Manifest
manifest = record {
  version = text "1.1";
  url = text "https://x/y.exe";
  sha256 = text "0A";
  signature = text "0a";
  notes = [];
}

-- A toy check, which any byte passes.
abbrev toy_verify : Bytes → Bytes → Bytes → Bool
toy_verify key message [] = false
toy_verify key message (b ∷ sig) = true

abbrev updater : Updater
updater = record {
  decode = λ body. some manifest;
  sha256 = λ body. 10 ∷ [];
  ed_verify = toy_verify;
  update_pub_key = replicate 64 48;
  current = text "1.0";
}

abbrev answers : Answers
answers = record {
  feed_reply = reply 200 (text "{}") true;
  exe_reply = reply 200 (text "MZ") true;
  temp = record { name = some (text "t.exe"); closes = true };
}

abbrev staged : Pending
staged = record {
  exe = text "t.exe";
  version = text "1.1";
  status = downloaded;
  ready = true;
  notes = [];
}

staged-Staged : Staged updater staged
unfolding check_update after_check after_verify after_download check check_fields verify verify_with
    update_public_key newer numbers_of split_version fields_of atoi digits_value newer_numbers
    download keep_verified equal_fold hex_encode hex_decode to_upper trim_space trim_left trim_right
    str_eq signing_message
staged-Staged = set_update (text "https://x") answers at_start (inr (inr (inl refl)))

abbrev fine : ScriptRun
fine = record { made = true; written = true; closes = true; starts = true }

install_genuine_example :
    (g : Genuine updater staged) × (cur : Str) × (some (text "a.exe") ≡ some cur)
    × (install_script (text "t.exe") (text "a.exe") true ≡ install_script g.file.name cur true)
unfolding update_public_key hex_decode install_pending install
install_genuine_example =
    install_genuine updater staged (some (text "a.exe")) fine
      (install_script (text "t.exe") (text "a.exe") true) refl staged-Staged refl

abbrev world : World
world = record {
  now = 0;
  alive = λ pid. pid == 7;
  found_java = text "java";
  found_jar = text "server.jar";
  found_launcher = [];
  found_game_dir = [];
  saves = true;
  spawned = some 7;
  adds = true;
  launches = true;
}

abbrev idle_app : App
idle_app = new_app world empty_config

abbrev started_app : App
started_app = (handle_action world (act_srv_start [] []) idle_app).1

abbrev started_up : List ℕ
started_up = runs (handle_action world (act_srv_start [] []) idle_app).0 []

started-Loop : Loop started_app started_up
started-Loop = acts world (act_srv_start [] []) (λ pid i. absurd i.1) (at_start world empty_config)

one_server_example : started_app.mc_srv ≡ some 7
unfolding handle_action start_game start_new started_as persist_game_paths note_started store_config
    set_note joinable_addr server_running new_app trim_space trim_left trim_right
one_server_example = one_server started_app started_up 7 started-Loop (inl refl)

quit_leaves_none_example : runs (quit started_app).0 started_up ≡ []
unfolding handle_action start_game start_new started_as persist_game_paths note_started store_config
    set_note joinable_addr server_running new_app trim_space trim_left trim_right
quit_leaves_none_example = quit_leaves_none started_app started_up started-Loop refl

log_all-last_example :
    ((log_all (replicate 21 (text "a") ++ text "b" ∷ []) idle_app).mc_tail
      ≡ last 20 (idle_app.mc_tail ++ (replicate 21 (text "a") ++ text "b" ∷ [])))
    × (length (log_all (replicate 21 (text "a") ++ text "b" ∷ []) idle_app).mc_tail ≤ 20)
unfolding new_app
log_all-last_example =
    log_all-last (replicate 21 (text "a") ++ text "b" ∷ []) idle_app (omega arith)

abbrev old_settings : Connection
old_settings = record { name = text "Ann"; server = text "ws://a/ws" }

abbrev new_settings : Connection
new_settings = record { name = text "Ann"; server = text "ws://b/ws" }

abbrev stale : Life
stale = record { cfg = new_settings; loop = running old_settings false; token = true; ui = at_rest }

-- saveSettings between the test of restartCh and the publication of the agent: the agent with the
-- old settings runs, and nothing cancels it.
stale-Lives : Lives stale
unfolding on_loop on_ui
stale-Lives =
    let looked = loop_steps true (starts old_settings) refl in
    let copied' = loop_steps true looked refl in
    let dialed' = loop_steps true copied' refl in
    let kept' = loop_steps true dialed' refl in
    let stored' = ui_steps new_settings kept' in
    let cancelled' = ui_steps new_settings stored' in
    let signalled = ui_steps new_settings cancelled' in loop_steps true signalled refl

settings_not_lost_example : (false ≡ true) ⊎ (old_settings ≡ new_settings) ⊎ Pends at_rest true
settings_not_lost_example = settings_not_lost stale old_settings false stale-Lives refl
