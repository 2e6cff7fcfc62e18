-- ===== src/Gui/Lifecycle.antt =====
-- cmd/gui/main.go: agentLoop, with saveSettings and signalRestart beside it. A step is what happens
-- under one hold of the lock, or one operation on restartCh.
pub mod Settings
use eliaukvpn.Base.{
  ◌≡◌, Bool, true, false, not, ◌&&◌, Option, none, some, List, [], ◌∷◌, is_empty, if◌then◌else◌,
}
use eliaukvpn.Base.Str.{Str}

-- The settings that agentOptions takes from the configuration; the others change without a restart.
pub record Connection : Type 0 where
  pub name : Str
  pub server : Str

-- Where agentLoop stands. `checked`: a server and a name are set. `dialing` and `dialed` hold the
-- options the agent was built from. `kept`: restartCh held no token, and the agent is about to be
-- published. `running` says whether its context is cancelled.
pub data LoopPhase : Type 0 where
  at_top idle checked backing_off : LoopPhase
  dialing dialed kept : Connection → LoopPhase
  running : Connection → Bool → LoopPhase

-- Where saveSettings stands: not in it, the new settings stored, the running agent cancelled.
pub data UiPhase : Type 0 where
  at_rest stored cancelled : UiPhase

pub record Life : Type 0 where
  pub cfg : Connection
  pub loop : LoopPhase
  pub token : Bool
  pub ui : UiPhase

-- hasCfg
abbrev pub has_config : Connection → Bool
has_config c = not (is_empty c.server) && not (is_empty c.name)

-- A step of agentLoop, with whether agent.New succeeds and, after a run, whether select takes the
-- token where it could also have taken the time. `none` where it waits.
unfoldable pub on_loop : Bool → LoopPhase → Life → Option Life
on_loop fine at_top l = some (record l { loop = if has_config l.cfg then checked else idle })
on_loop fine idle l = if l.token then some (record l { loop = at_top; token = false }) else none
on_loop fine checked l = some (record l { loop = dialing l.cfg })
on_loop fine (dialing o) l = some (record l { loop = if fine then dialed o else backing_off })
on_loop fine (dialed o) l =
    some (if l.token then record l { loop = at_top; token = false } else record l { loop = kept o })
on_loop fine (kept o) l = some (record l { loop = running o false })
on_loop fine (running o c) l = some (record l { loop = backing_off })
on_loop fine backing_off l = some (
    if fine && l.token
    then record l { loop = at_top; token = false }
    else record l { loop = at_top })

-- a.cancel(), where an agent is published
abbrev pub cancel_run : LoopPhase → LoopPhase
cancel_run (running o c) = running o true
cancel_run p = p

-- A step of saveSettings, with the new settings, which change name or server, and whether they can
-- be written
unfoldable pub on_ui : Connection → Bool → UiPhase → Life → Life
on_ui c saves at_rest l = record l { cfg = c; ui = stored }
on_ui c saves stored l =
    if saves
    then record l { loop = cancel_run l.loop; ui = cancelled }
    else record l { ui = at_rest }
on_ui c saves cancelled l = record l { token = true; ui = at_rest }

abbrev pub start_life : Connection → Life
start_life c = record { cfg = c; loop = at_top; token = false; ui = at_rest }

-- What can happen, in any order, as long as the settings can be written
pub data Lives : Life → Type 0 where
  starts : (c : Connection) → Lives (start_life c)
  loop_steps : {l m : Life} (fine : Bool) → Lives l → on_loop fine l.loop l ≡ some m → Lives m
  ui_steps : {l : Life} (c : Connection) → Lives l → Lives (on_ui c true l.ui l)
