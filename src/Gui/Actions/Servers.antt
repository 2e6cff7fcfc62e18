-- ===== src/Gui/Actions/Servers.antt =====
-- The processes of the game server that the program starts.
use eliaukvpn.Base.{
  ℕ, ◌≡◌, refl, sym, ap, ◌∙◌, subst, inl, inr, true, false, ◌||◌, Option, none, some, List, [], ◌∷◌,
  ◌++◌, is_empty, In, Bool-cases, arith,
}
use eliaukvpn.Base.Str.{Str}
use eliaukvpn.Config.{Config}
use eliaukvpn.Agent.State.{Agent}
use eliaukvpn.Gui.Update.{Pending}
use eliaukvpn.Gui.State.{
  App, World, UiEffect, set_note, game_log, server_running, close_quit, paths_missing,
  already_running, copied,
}
use eliaukvpn.Gui.Game.{
  persist_game_paths, note_started, start_new, start_game, started_as, stop_held, stop_game,
}
use eliaukvpn.Gui.Actions.{
  new_app, cancel, stop_tracked, quit, UiAction, act_ready, act_quit, act_check_update,
  act_apply_update, act_room_create, act_room_leave, act_game_detect, act_srv_stop, act_fullscreen,
  other, act_copy, act_room_join, act_mc_add, act_launch, act_srv_start, act_save, handle_action,
}
use eliaukvpn.Gui.Actions.Quiet.{
  without, runs, runs-append, In-without, QuietAt, then_op-Quiet, cancel-calm, set_note-Quiet,
  persist_game_paths-Quiet, detect_game-Quiet, note_started-Quiet, launch_game-Quiet,
  add_to_launcher-Quiet, save_settings-Quiet, room_action-Quiet,
}

-- The program and the server processes that run, after any actions of the frontend, output of the
-- server, ends of processes, checks for updates, and changes of the agent. An action sees the
-- processes that run.
pub data Loop : App → List ℕ → Type 0 where
  at_start : (w : World) (c : Config) → Loop (new_app w c) []
  acts :
      {a : App} {up : List ℕ} (w : World) (x : UiAction)
      → ((pid : ℕ) → In pid up → w.alive pid ≡ true)
      → Loop a up
      → Loop (handle_action w x a).1 (runs (handle_action w x a).0 up)
  logs : {a : App} {up : List ℕ} (line : Str) → Loop a up → Loop (game_log line a) up
  exits : {a : App} {up : List ℕ} (pid : ℕ) → Loop a up → Loop a (without pid up)
  stages : {a : App} {up : List ℕ} (p : Pending) → Loop a up → Loop (record a { pending = p }) up
  agent_changes :
      {a : App} {up : List ℕ} (ag : Option Agent) → Loop a up → Loop (record a { ag = ag }) up

-- Every server process that runs is the one the program holds.
abbrev pub Held : App → List ℕ → Type 0
Held a up = (pid : ℕ) → In pid up → a.mc_srv ≡ some pid

quiet-Held :
    (a : App) (r : List UiEffect × App) (up : List ℕ)
    → QuietAt a r
    → Held a up
    → Held r.1 (runs r.0 up)
quiet-Held a r up q h pid i = q.same ∙ h pid (subst (λ ps. In pid ps) (q.calm up) i)

some_injective : {p q : ℕ} → ◌≡◌ {A = Option ℕ} (some p) (some q) → p ≡ q
some_injective e = cc

-- The held server is stopped: none is left.
none_without :
    (a : App) (up : List ℕ) (pid p : ℕ) → Held a up → a.mc_srv ≡ some p → In pid (without p up) → ⊥
none_without a up pid p h held i =
    let (there, differs) = In-without pid p up i in
    let same : pid ≡ p = some_injective (sym (h pid there) ∙ held) in ground (arith, same, differs)

stop_held-Held :
    (w : World) (a : App) (up : List ℕ) (o : Option ℕ)
    → a.mc_srv ≡ o
    → Held a up
    → Held (stop_held w o a).1 (runs (stop_held w o a).0 up)
unfolding stop_held set_note
stop_held-Held w a up none e h pid i = cc (h pid i, e)
stop_held-Held w a up (some p) e h pid i = absurd (none_without a up pid p h e i)

-- Starting where none runs
started_as-Held :
    (w : World) (java jar : Str) (o : Option ℕ) (a : App) (up : List ℕ)
    → ((pid : ℕ) → In pid up → ⊥)
    → Held (started_as w java jar o a).1 (runs (started_as w java jar o a).0 up)
unfolding started_as
started_as-Held w java jar none a up nobody pid i = absurd (nobody pid i)
started_as-Held w java jar (some p) a up nobody pid i =
    let q =
      then_op-Quiet (persist_game_paths w java jar) (note_started w)
        (persist_game_paths-Quiet w java jar) (note_started-Quiet w)
        (record a { mc_srv = some p }) in
    elim (subst (λ ps. In pid ps) (q.calm (p ∷ up)) i) [
      | inl e ↦ q.same ∙ ap (λ x. some x) (sym e)
      | inr j ↦ absurd (nobody pid j)
    ]

start_new-Held :
    (w : World) (java jar : Str) (a : App) (up : List ℕ)
    → ((pid : ℕ) → In pid up → ⊥)
    → Held (start_new w java jar a).1 (runs (start_new w java jar a).0 up)
unfolding start_new
start_new-Held w java jar a up nobody = elim (Bool-cases (is_empty java || is_empty jar)) [
  | inl unknown ↦
      rw (start_new, unknown)
        (quiet-Held a (set_note w paths_missing false a) up (set_note-Quiet w paths_missing false a)
          (λ pid i. absurd (nobody pid i)))
  | inr known ↦ rw (start_new, known) (started_as-Held w java jar w.spawned a up nobody)
]

-- No server runs where the held one does not.
none_runs :
    (w : World) (a : App) (up : List ℕ)
    → ((pid : ℕ) → In pid up → w.alive pid ≡ true)
    → Held a up
    → server_running w a ≡ false
    → (pid : ℕ) → In pid up
    → ⊥
unfolding server_running
none_runs w a up sees h idle' pid i = cc (rw (h pid i) at idle', sees pid i)

start_game-Held :
    (w : World) (java jar : Str) (a : App) (up : List ℕ)
    → ((pid : ℕ) → In pid up → w.alive pid ≡ true)
    → Held a up
    → Held (start_game w java jar a).1 (runs (start_game w java jar a).0 up)
unfolding start_game
start_game-Held w java jar a up sees h = elim (Bool-cases (server_running w a)) [
  | inl one ↦
      rw (start_game, one)
        (quiet-Held a (set_note w already_running false a) up
          (set_note-Quiet w already_running false a) h)
  | inr idle' ↦ rw (start_game, idle') (start_new-Held w _ _ a up (none_runs w a up sees h idle'))
]

-- What quit does to the server that mcSrv held
quit_empties :
    (a : App) (up : List ℕ) (pid : ℕ) (o : Option ℕ)
    → a.mc_srv ≡ o
    → Held a up
    → In pid (runs (stop_tracked o ++ close_quit ∷ []) up)
    → ⊥
quit_empties a up pid none e h i = cc (h pid i, e)
quit_empties a up pid (some p) e h i = none_without a up pid p h e i

empty_of : (ps : List ℕ) → ((pid : ℕ) → In pid ps → ⊥) → ps ≡ []
empty_of [] h = refl
empty_of (p ∷ ps) h = absurd (h p (inl refl))

quit_stops :
    (a : App) (up : List ℕ)
    → Held a up
    → runs (cancel a.ag ++ (stop_tracked a.mc_srv ++ close_quit ∷ [])) up ≡ []
quit_stops a up h =
    runs-append (cancel a.ag) (stop_tracked a.mc_srv ++ close_quit ∷ []) up
    ∙ ap (λ ps. runs (stop_tracked a.mc_srv ++ close_quit ∷ []) ps) (cancel-calm a.ag up)
    ∙ empty_of _ (λ pid i. quit_empties a up pid a.mc_srv refl h i)

quit-Held : (a : App) (up : List ℕ) → Held a up → Held (quit a).1 (runs (quit a).0 up)
unfolding quit
quit-Held a up h = elim (Bool-cases a.quitting) [
  | inl again ↦ rw (quit, again) h
  | inr first ↦ rw (quit, first) (λ pid i. absurd ((rw (quit_stops a up h) at i).1))
]

handle_action-Held :
    (w : World) (x : UiAction) (a : App) (up : List ℕ)
    → ((pid : ℕ) → In pid up → w.alive pid ≡ true)
    → Held a up
    → Held (handle_action w x a).1 (runs (handle_action w x a).0 up)
unfolding handle_action stop_game
handle_action-Held w act_ready a up sees h = h
handle_action-Held w (act_copy s) a up sees h =
    quiet-Held a (set_note w copied true a) up (set_note-Quiet w copied true a) h
handle_action-Held w (act_save n s u) a up sees h =
    quiet-Held a _ up (save_settings-Quiet w n s u a) h
handle_action-Held w act_quit a up sees h = quit-Held a up h
handle_action-Held w act_check_update a up sees h = h
handle_action-Held w act_apply_update a up sees h = quit-Held a up h
handle_action-Held w act_room_create a up sees h = quiet-Held a _ up (room_action-Quiet w _ _ a) h
handle_action-Held w (act_room_join code) a up sees h =
    quiet-Held a _ up (room_action-Quiet w _ _ a) h
handle_action-Held w act_room_leave a up sees h = quiet-Held a _ up (room_action-Quiet w _ _ a) h
handle_action-Held w act_game_detect a up sees h = quiet-Held a _ up (detect_game-Quiet w a) h
handle_action-Held w (act_srv_start java jar) a up sees h = start_game-Held w java jar a up sees h
handle_action-Held w act_srv_stop a up sees h = stop_held-Held w a up a.mc_srv refl h
handle_action-Held w (act_mc_add dir) a up sees h =
    quiet-Held a _ up (add_to_launcher-Quiet w dir a) h
handle_action-Held w (act_launch exe) a up sees h = quiet-Held a _ up (launch_game-Quiet w exe a) h
handle_action-Held w act_fullscreen a up sees h = h
handle_action-Held w other a up sees h = h

Loop-Held : {a : App} {up : List ℕ} → Loop a up → Held a up
unfolding game_log new_app
Loop-Held (at_start w c) pid i = absurd i.1
Loop-Held (acts {a} {up} w x sees l) pid i = handle_action-Held w x a up sees (Loop-Held l) pid i
Loop-Held (logs line l) pid i = Loop-Held l pid i
Loop-Held (exits {a} {up} gone l) pid i = Loop-Held l pid (In-without pid gone up i).0
Loop-Held (stages p l) pid i = Loop-Held l pid i
Loop-Held (agent_changes ag l) pid i = Loop-Held l pid i

-- After any actions and events, a server process that runs is the one that the program holds, so
-- at most one runs.
pub one_server : (a : App) (up : List ℕ) (pid : ℕ) → Loop a up → In pid up → a.mc_srv ≡ some pid
one_server a up pid l i = Loop-Held l pid i

-- After any actions and events, the first quit leaves no server process running.
pub quit_leaves_none :
    (a : App) (up : List ℕ) → Loop a up → a.quitting ≡ false → runs (quit a).0 up ≡ []
unfolding quit
quit_leaves_none a up l first = rw (quit, first) (quit_stops a up (Loop-Held l))
