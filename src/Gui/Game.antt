-- ===== src/Gui/Game.antt =====
-- cmd/gui/main.go: the game panel.
pub mod Tail
use eliaukvpn.Base.{
  ℕ, Bool, true, false, not, ◌&&◌, ◌||◌, Option, none, some, List, [], ◌∷◌, ◌++◌, is_empty,
  if◌then◌else◌,
}
use eliaukvpn.Base.Str.{Str, text}
use eliaukvpn.Base.Trim.{trim_space}
use eliaukvpn.Protocol.{RoomMember}
use eliaukvpn.Config.{Config}
use eliaukvpn.Agent.State.{Agent, RoomState}
use eliaukvpn.Gui.State.{
  App, World, Op, UiEffect, NoteText, set_note, server_running, ◌then_op◌, save_config,
  start_server, stop_server, add_server, launch, save_failed, nothing_found, jar_found_only,
  java_found_only, found, already_running, paths_missing, start_failed, started, started_at,
  server_stopped, not_running, no_address, add_failed, added, launched, launch_failed,
}

abbrev with_port : Str → Str
with_port ip = ip ++ text ":25565"

-- The loop over the members
unfoldable pub host_addr : List RoomMember → Str
host_addr [] = []
host_addr (m ∷ ms) =
    let rest = host_addr ms in
    if m.host && not (is_empty m.virtual_ip) then with_port m.virtual_ip else rest

abbrev pub room_addr : Option RoomState → Str
room_addr none = []
room_addr (some r) = host_addr r.members

-- joinableAddr, of an agent that is there
unfoldable pub addr_of : Bool → Agent → Str
unfolding host_addr
addr_of running ag =
    if running && not (is_empty ag.my_vip) then with_port ag.my_vip else room_addr ag.room

-- joinableAddr
unfoldable pub joinable_addr : World → App → Str
unfolding addr_of server_running
joinable_addr w a = elim a.ag [ none ↦ [] | some ag ↦ addr_of (server_running w a) ag ]

-- Save of the settings as they are, with the note where it fails
unfoldable pub store_config : World → Op
unfolding set_note
store_config w a =
    let (es, b) = set_note w save_failed false a in
    (save_config a.cfg ∷ [], if w.saves then a else b)

-- persistGamePaths
unfoldable pub persist_game_paths : World → Str → Str → Op
unfolding store_config
persist_game_paths w java jar a = store_config w (record a {
  mc_java = java;
  mc_jar = jar;
  cfg = record (a.cfg) { java = java; server_jar = jar };
})

-- persistLauncher
unfoldable pub persist_launcher : World → Str → Str → Op
unfolding store_config
persist_launcher w launcher game_dir a = store_config w (record a {
  mc_launcher = launcher;
  mc_game_dir = game_dir;
  cfg = record (a.cfg) { launcher = launcher; game_dir = game_dir };
})

abbrev detected : Bool → Bool → NoteText
detected true true = nothing_found
detected true false = jar_found_only
detected false true = java_found_only
detected false false = found

-- detectGame
unfoldable pub detect_game : World → Op
unfolding persist_game_paths persist_launcher set_note
detect_game w =
    persist_game_paths w w.found_java w.found_jar
    then_op persist_launcher w w.found_launcher w.found_game_dir
    then_op set_note w (detected (is_empty w.found_java) (is_empty w.found_jar))
        (not (is_empty w.found_java) && not (is_empty w.found_jar))

abbrev pub or_found : Str → Str → Str
or_found s found_one = if is_empty s then found_one else s

-- startGame once the server runs as a process
unfoldable pub note_started : World → Op
unfolding joinable_addr set_note
note_started w a =
    let addr = joinable_addr w a in
    set_note w (if is_empty addr then started else started_at addr) true a

-- startGame from mc.StartServer on, with the process it started, if it could
unfoldable pub started_as : World → Str → Str → Option ℕ → Op
unfolding persist_game_paths note_started set_note
started_as w java jar none a = set_note w start_failed false a
started_as w java jar (some pid) a =
    let (es, b) =
      (persist_game_paths w java jar then_op note_started w) (record a { mc_srv = some pid }) in
    (start_server pid java jar ∷ es, b)

-- startGame where no server runs
unfoldable pub start_new : World → Str → Str → Op
unfolding started_as set_note
start_new w java jar a =
    if is_empty java || is_empty jar
    then set_note w paths_missing false a
    else started_as w java jar w.spawned a

-- startGame
unfoldable pub start_game : World → Str → Str → Op
unfolding start_new server_running set_note
start_game w java jar a =
    if server_running w a
    then set_note w already_running false a
    else start_new w (or_found (trim_space java) w.found_java)
        (or_found (trim_space jar) w.found_jar) a

-- stopGame, with the server that mcSrv held
unfoldable pub stop_held : World → Option ℕ → Op
unfolding set_note
stop_held w none a = set_note w not_running false a
stop_held w (some pid) a =
    let (es, b) = set_note w server_stopped true (record a { mc_srv = none }) in
    (stop_server pid ∷ es, b)

-- stopGame
unfoldable pub stop_game : World → Op
unfolding stop_held
stop_game w a = stop_held w a.mc_srv a

abbrev room_code_of : Option Agent → Str
room_code_of none = []
room_code_of (some ag) = elim ag.room [ none ↦ [] | some r ↦ r.code ]

abbrev entry_name : Str → Str
entry_name code = if is_empty code then text "Eliauk VPN" else text "Eliauk [" ++ code ++ text "]"

-- addToLauncher
unfoldable pub add_to_launcher : World → Str → Op
unfolding joinable_addr set_note
add_to_launcher w game_dir a =
    let addr = joinable_addr w a in
    let name = entry_name (room_code_of a.ag) in
    let dir = if is_empty game_dir then a.mc_game_dir else game_dir in
    let (es, b) = set_note w (if w.adds then added name addr else add_failed) w.adds a in
    if is_empty addr then set_note w no_address false a else (add_server name addr dir ∷ es, b)

-- launchGame
unfoldable pub launch_game : World → Str → Op
unfolding set_note
launch_game w launcher a =
    let exe = if is_empty launcher then a.mc_launcher else launcher in
    let (es, b) = set_note w (if w.launches then launched else launch_failed) w.launches a in
    (launch exe ∷ es, b)
