-- ===== src/Agent.antt =====
-- crates/jux-core/src/main_loop and what it uses: one user request, from its first step to its end.
pub mod Values
pub mod Event
pub mod Skills
pub mod Discovery
pub mod Instructions
pub mod Messages
pub mod Monad
pub mod Ending
pub mod Llm
pub mod HumanInput
pub mod Prompt
pub mod Utf8
pub mod Attempt
pub mod Subflow
pub mod Tools
pub mod RunLoop
pub mod Requests
pub mod Transitions
pub mod Logic
pub mod LogicCalls
pub mod LogicSubflow
pub mod LogicLoop
pub mod Traced
pub mod TracedLoop
pub mod TracedSkills
pub mod TracedRequests
pub mod Growing
pub mod History
pub mod Endings
pub mod Settled
pub mod Answering
pub mod Chunks
pub mod Local
pub mod Isolated
pub mod Selecting
pub mod SkillFile
pub mod Discovered
mod Samples
mod SkillSamples
