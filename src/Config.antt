-- ===== src/Config.antt =====
-- crates/jux-core/src/config: the configuration of a user, and the policy that it resolves to.
pub mod Settings
pub mod Resolve
pub mod Merging
pub mod Merged
pub mod Rejecting
pub mod Jsonc
pub mod Loading
pub mod Denying
pub mod Pieces
mod Samples
