-- ===== src/Policy.antt =====
-- crates/jux-core/src/policy: what the sandbox may do.
pub mod Language
pub mod Pattern
pub mod Translation
pub mod Wildcard
pub mod Meaning
pub mod Paths
pub mod Normal
pub mod Filesystem
pub mod FirstMatch
pub mod Access
pub mod Network
pub mod Sandbox
pub mod Enforcement
pub mod Engine
mod Samples
