-- ===== src/Ui.antt =====
-- crates/jux-cli/src/tui/ui: the state of the terminal interface.
pub mod Focus
pub mod Focused
pub mod VirtualList
pub mod Measured
pub mod Scrolling
mod Samples
