-- ===== src/Gui.antt =====
-- cmd/gui/main.go: the window's program. The painting of the window and the tray are
-- left out.
pub mod State
pub mod Update
pub mod Game
pub mod Actions
pub mod Lifecycle
mod Examples
