-- ===== src/State.antt =====
-- crates/jux-core/src/state: identifiers, the data model and the store.
pub mod Decimal
pub mod Digits
pub mod Ids
pub mod Model
pub mod Tags
pub mod Signed
pub mod Sql
pub mod Database
pub mod Sessions
pub mod Numbers
pub mod Runs
pub mod Steps
pub mod Items
pub mod Order
pub mod Numbering
pub mod Appending
pub mod Apart
pub mod Million
pub mod Creation
pub mod Deleting
pub mod Lifecycle
pub mod Replacing
pub mod Ensuring
pub mod Activating
mod Samples
mod ContextSamples
