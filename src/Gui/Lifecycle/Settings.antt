-- ===== src/Gui/Lifecycle/Settings.antt =====
-- The settings of the agent that runs.
use eliaukvpn.Base.{
  ◌≡◌, refl, ◌⊎◌, inl, inr, Bool, true, false, Option, some, Bool-cases, subst, ◌&&◌, if◌then◌else◌,
}
use eliaukvpn.Gui.Lifecycle.{
  Connection, LoopPhase, at_top, idle, checked, backing_off, dialing, dialed, kept, running,
  UiPhase, at_rest, stored, cancelled, Life, on_loop, on_ui, cancel_run, has_config, Lives, starts,
  loop_steps, ui_steps,
}

some_injective : {l m : Life} → ◌≡◌ {A = Option Life} (some l) (some m) → l ≡ m
some_injective e = cc

-- A change of the settings is still under way: saveSettings has not ended, or the token waits.
abbrev pub Pends : UiPhase → Bool → Type 0
Pends at_rest token = token ≡ true
Pends _ token = Unit

-- The settings in use are the current ones, or the change is on its way.
abbrev Current : Connection → Life → Type 0
Current o l = (o ≡ l.cfg) ⊎ Pends l.ui l.token

abbrev Known : LoopPhase → Life → Type 0
Known (dialing o) l = Current o l
Known (dialed o) l = Current o l
Known (kept o) l = Current o l
Known (running o c) l = (c ≡ true) ⊎ Current o l
Known _ l = Unit

carried : (l m : Life) → ◌≡◌ {A = Option Life} (some l) (some m) → Known l.loop l → Known m.loop m
carried l m e h = subst (λ x. Known x.loop x) (some_injective e) h

if-Known :
    (b : Bool) (l m : Life)
    → Known l.loop l
    → Known m.loop m
    → Known (if b then l else m).loop (if b then l else m)
if-Known true l m p q = p
if-Known false l m p q = q

if_phase-Known :
    (b : Bool) (p q : LoopPhase) (l : Life) → Known p l → Known q l → Known (if b then p else q) l
if_phase-Known true p q l h k = h
if_phase-Known false p q l h k = k

-- While a change is under way, nothing is asked of the agent.
pending-Known : (p : LoopPhase) (l : Life) → Pends l.ui l.token → Known p l
pending-Known at_top l h = tt
pending-Known idle l h = tt
pending-Known checked l h = tt
pending-Known backing_off l h = tt
pending-Known (dialing o) l h = inr h
pending-Known (dialed o) l h = inr h
pending-Known (kept o) l h = inr h
pending-Known (running o c) l h = inr (inr h)

on_loop-Known :
    (fine : Bool) (p : LoopPhase) (l m : Life)
    → Known p l
    → on_loop fine p l ≡ some m
    → Known m.loop m
unfolding on_loop
on_loop-Known fine at_top l m h is =
    carried _ m is (if_phase-Known (has_config l.cfg) checked idle _ tt tt)
on_loop-Known fine idle l m h is = elim (Bool-cases l.token) [
  | inl waits ↦ carried _ m (rw waits at is) tt
  | inr none' ↦ cc (rw none' at is)
]
on_loop-Known fine checked l m h is = carried _ m is (inl refl)
on_loop-Known fine (dialing o) l m h is =
    carried _ m is (if_phase-Known fine (dialed o) backing_off _ h tt)
on_loop-Known fine (dialed o) l m h is = carried _ m is (if-Known l.token _ _ tt h)
on_loop-Known fine (kept o) l m h is = carried _ m is (inr h)
on_loop-Known fine (running o c) l m h is = carried _ m is tt
on_loop-Known fine backing_off l m h is = carried _ m is (if-Known (fine && l.token) _ _ tt tt)

on_ui-Known :
    (c : Connection) (u : UiPhase) (l : Life)
    → l.ui ≡ u
    → Known l.loop l
    → Known (on_ui c true u l).loop (on_ui c true u l)
unfolding on_ui
on_ui-Known c at_rest l at h = pending-Known l.loop _ tt
on_ui-Known c stored l at h = pending-Known (cancel_run l.loop) _ tt
on_ui-Known c cancelled l at h = pending-Known l.loop _ refl

Lives-Known : {l : Life} → Lives l → Known l.loop l
Lives-Known (starts c) = tt
Lives-Known (loop_steps {l} {m} fine h is) = on_loop-Known fine l.loop l m (Lives-Known h) is
Lives-Known (ui_steps {l} c h) = on_ui-Known c l.ui l refl (Lives-Known h)

-- In any order of the steps of agentLoop and saveSettings, as long as the settings can be written:
-- an agent that runs has the current settings, or its context is cancelled, or saveSettings is under
-- way, or the token that makes agentLoop build a new agent waits in restartCh.
pub settings_not_lost :
    (l : Life) (o : Connection) (c : Bool)
    → Lives l
    → l.loop ≡ running o c
    → (c ≡ true) ⊎ (o ≡ l.cfg) ⊎ Pends l.ui l.token
settings_not_lost l o c h at = subst (λ p. Known p l) at (Lives-Known h)
