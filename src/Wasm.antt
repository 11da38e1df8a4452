-- ===== src/Wasm.antt =====
-- crates/jux-core/src/tools/wasm: how commands are run, and with what capabilities.
pub mod Capability
pub mod Permissions
pub mod Commands
pub mod Exec
pub mod Guard
mod Samples
