-- ===== src/Lib.antt =====
-- Jux runs an agent's commands in a WebAssembly sandbox and keeps its sessions in a database. These
-- files model the parts of the crate `jux-core` that decide what a sandboxed command may do, those
-- that number, store and read back what happened, and the loop that serves a request with a language
-- model, tools and skills, the configuration of all this, and of the crate `jux-cli` the focus and
-- the lists of the terminal interface.
--
-- The sandbox policy (Policy, for crates/jux-core/src/policy):
-- - Pattern: match_pattern.rs. `translate` is the loop of `wildcard_to_regex`. Language says what a
--   wildcard means, Translation and Wildcard that its regex means the same, Meaning what follows.
-- - Paths: `std::path` on Unix as lists of components, `normalize_path` and
--   `path_to_match_string`. Normal has the laws of normalization.
-- - Filesystem and Network: the rules of wasm/filesystem.rs and wasm/network.rs, with the loops over
--   rules as recursion (`decide_rules`, `decide_http_rules`). FirstMatch says what it means that the
--   first rule that matches decides, and Access what the filesystem policy promises.
-- - Sandbox: wasm/mod.rs, mod.rs and native.rs. Enforcement follows a policy into the runtime.
-- - Engine is a small regex engine, which runs and applied theorems take for the crate.
--
-- The runtime and its commands (Wasm, for crates/jux-core/src/tools/wasm):
-- - Capability and Permissions: capability.rs and permissions.rs; a runtime is the record of the
--   settings that the code changes.
-- - Commands and Exec: commands.rs, exec_tool.rs and the guard of runtime.rs. Guard is
--   about which commands are run.
--
-- The state (State, for crates/jux-core/src/state):
-- - Decimal and Digits: decimal numbers as Rust prints and parses them, and SQLite orders them.
-- - Ids and Model: ids.rs and model.rs. Tags: the texts of tags in the database.
-- - Sql and Database: the SQL that store.rs uses, tables as lists of rows, and a monad of actions
--   with transactions that are rolled back on an error.
-- - Sessions, Numbers, Runs, Steps and Items: the operations of store.rs. Signed: the casts between
--   `u64` and the signed column of a context item's sequence, by which the items are ordered.
-- - Order, Numbering and Appending are about steps, a list that grows at its end, and Million about
--   its end; Creation, Apart, Deleting, Lifecycle and Activating about sessions and the status of
--   runs, and which ids are below a session; Replacing and Ensuring about
--   context items.
--
-- The run loop (Agent, for crates/jux-core/src/main_loop, skills, instructions and
-- tools/human_input.rs):
-- - Values and Utf8: what is used of JSON values, and the UTF-8 of the standard library.
-- - Event: event.rs. Skills, Discovery and Instructions: skills/mod.rs and instructions/mod.rs.
-- - Messages and Prompt: what a model is told, from context items and steps. HumanInput: which call
--   waits for input, and whether an input is valid.
-- - Monad: the state of a run, that is the database, the events sent and the partial output, with
--   counts of how often the clock, the model and the tools were asked, and a monad of actions that
--   may fail, be aborted while they wait, or panic. Attempt is the same with texts for errors.
-- - Ending, Llm, Tools, Subflow, RunLoop and Requests: main_loop/mod.rs, from its ends upwards to
--   `run_with_events_cancellable`. A helper stands for each `match` and loop of a function; an
--   iteration that is left counts down from `MAX_LOOP_ITERATIONS`.
-- - Logic: rules that the actions of one run are made of; LogicCalls, LogicSubflow and LogicLoop
--   follow them through the loop. Three logics are used: in Transitions and Traced* an action
--   replays transitions of the state, in Endings and Settled it ends in a settled way, and in Local
--   and Isolated it leaves other runs alone.
-- - Growing and History: what a request leaves in the store and among the events. Answering,
--   Chunks, Selecting, SkillFile and Discovered: pending input, the chunks of an output, selected
--   skills, and skills as they are read and found.
--
-- The configuration (Config, for crates/jux-core/src/config/mod.rs):
-- - Settings and Resolve: the settings, their defaults, and `JuxConfig::resolve` with its conversions.
--   Denying is about rules that deny.
-- - Jsonc: `strip_jsonc_comments`, a character at a time, where the scanner's state stands for the
--   place in the loops. Pieces is about texts made of strings, comments and other characters.
-- - Merging and Loading: a file's values laid over the defaults, and the loader of the file. Merged
--   and Rejecting are about the merging and about nulls.
--
-- The terminal interface (Ui, for crates/jux-cli/src/tui/ui):
-- - Focus: focus.rs. Focused has the operations as steps, and what holds in every state they reach.
-- - VirtualList: virtual_list.rs. Measured is about the heights kept between frames, Scrolling about
--   the scroll and the rows in sight.
--
-- Base has the names that all share, and the files Samples, ContextSamples and SkillSamples have
-- runs and applied theorems.
--
-- A text is a list of character codes. An error is the text that the code gives, or a value of its
-- error type. Native numbers stand for `u64` and `u128`; a sum that is stored wraps at 2 ^ 64.
-- Recursion is structural; `digits` has the number itself plus one as its bound on digits, which is
-- more than it has.
--
-- The `regex` crate, the JSON encoding of `serde_json`, `shlex::split`, the raw text of a new
-- UUID, the time, the package that runs a command, the HTTP client of `wasmer_wasix`, the models
-- and messages of `rig`, the tools, `serde_yaml`, the conversion of settings by `serde` and the
-- file system that skills and settings are read from are parameters; the laws asked of them are
-- RegexLaws and IsReadBack. An abort is an answer that never comes, and may stand at any call of a
-- model. Not modelled are code changes, the tool registry with Lua, updates, the command line and
-- the rest of the terminal interface, of the run loop logging and the constructors of its context,
-- and of the store the opening of files, the upgrade of old tables and the decimal text of
-- timestamps.
pub mod Base
pub mod Policy
pub mod Wasm
pub mod State
pub mod Config
pub mod Agent
pub mod Ui
