-- ===== src/Agent/Monad.antt =====
-- The state of a run of crates/jux-core/src/main_loop/mod.rs, and actions on it. Models, tools and
-- the clock are functions of how often they were asked; an answer may also be that the run was
-- aborted while it waited, as `Abortable` does.
use jux.Base.{
  ℕ, suc, ◌+◌, ◌%◌, ◌^◌, Bool, Text, codes, List, [], ◌∷◌, ◌++◌, Option, none, some, Result, ok,
  err,
}
use jux.Policy.Paths.{FilePath}
use jux.State.Model.{
  StoreError, Run, StepPayload, LlmUsage, SessionContextPayload, sqlite, json, invalid_status,
  invalid_step_kind, invalid_session_context_kind, invalid_id, missing_session, missing_run,
  missing_workspace, conversion_failure,
}
use jux.State.Database.{Database, Action}
use jux.State.Steps.{Codec}
use jux.Agent.Event.{
  AgentEvent, AgentEventId, AgentEventKind, AgentEventData, assistant_text_delta, new_event,
}
use jux.Agent.Messages.{AssistantContent, ToolDefinition, LlmCompletionRequest}
use jux.Agent.Skills.{SkillDefinition}
use jux.Agent.Instructions.{InstructionDocument}

-- An answer from outside; a failure is its displayed text.
pub data Answer (A : Type 0) : Type 0 where
  answered : A → Answer A
  refused : Text → Answer A
  never : Answer A

pub record LlmResponse (Json : Type 0) : Type 0 where
  pub choice : List (AssistantContent Json)
  pub usage : LlmUsage
  pub message_id : Option Text

-- `rig::streaming::StreamedAssistantContent`; a reasoning is its display text.
pub data StreamedContent : Type 0 where
  streamed_text streamed_reasoning reasoning_delta : Text → StreamedContent
  -- The internal call id, and the content of a name or of a delta.
  call_delta : Text → Text → StreamedContent
  final : Option LlmUsage → StreamedContent
  streamed_tool_call : StreamedContent

pub record LlmStream (Json : Type 0) : Type 0 where
  pub chunks : List (Answer StreamedContent)
  pub choice : List (AssistantContent Json)
  pub message_id : Option Text

pub record SkillCallArgs : Type 0 where
  pub name : Text
  pub task : Text

pub record HumanInputOption : Type 0 where
  pub id : Text
  pub label : Text

-- The fields of `HumanInputRequest` that the code tests.
pub record HumanInputRequest : Type 0 where
  pub options : List HumanInputOption
  pub allow_free_text : Bool

-- `RunLoopContext`, with what stands outside of the code.
pub record RunLoopContext (Json : Type 0) : Type 0 where
  pub root : FilePath
  pub instructions : List InstructionDocument
  pub skills : List SkillDefinition
  pub requested_skills : List SkillDefinition
  pub active_skills : List SkillDefinition
  pub stream_model_output : Bool
  pub workspace_raw : Text
  pub clock : ℕ → ℕ
  pub completion : ℕ → LlmCompletionRequest Json → Answer (LlmResponse Json)
  pub stream : ℕ → LlmCompletionRequest Json → Answer (LlmStream Json)
  pub execute_tool : ℕ → Text → Json → Result Text Json
  pub tool_definitions : List (ToolDefinition Json)
  pub call_skill_tool_definition : ToolDefinition Json
  -- `serde_json::from_value`, to the arguments of `call_skill` and of `human_input`
  pub parse_skill_call : Json → Result Text SkillCallArgs
  pub parse_human_input : Json → Result Text HumanInputRequest
  pub step_codec : Codec (StepPayload Json)
  pub context_codec : Codec (SessionContextPayload Json)

pub record State (Json : Type 0) : Type 0 where
  pub db : Database
  pub events : List (AgentEvent Json)
  pub next_sequence : ℕ
  pub partial_output : Text
  pub clock_reads : ℕ
  pub model_calls : ℕ
  pub tool_calls : ℕ

pub data RunLoopError : Type 0 where
  store : StoreError → RunLoopError
  prompt runtime : Run → Text → RunLoopError
  canceled : Option Run → RunLoopError

pub data Outcome (A : Type 0) : Type 0 where
  done : A → Outcome A
  failed : RunLoopError → Outcome A
  aborted panicked : Outcome A

-- `Display` of `StoreError`
abbrev pub store_error_text : StoreError → Text
store_error_text (sqlite error) = codes "workspace store SQLite error: " ++ error
store_error_text (json error) = codes "workspace store JSON error: " ++ error
store_error_text missing_workspace = codes "workspace state is not initialized"
store_error_text (missing_session id) = codes "session does not exist: " ++ id
store_error_text (missing_run id) = codes "run does not exist: " ++ id
store_error_text (invalid_status status) = codes "invalid stored status: " ++ status
store_error_text (invalid_step_kind kind) = codes "invalid stored step kind: " ++ kind
store_error_text (invalid_session_context_kind kind) =
    codes "invalid stored session context kind: " ++ kind
store_error_text (invalid_id id) = codes "invalid stored id: " ++ id
store_error_text (conversion_failure e) =
    codes "workspace store SQLite error: " ++ store_error_text e

abbrev pub Running : Type 0 → Type 0 → Type 0
Running Json A = State Json → Outcome A × State Json

abbrev pub and_then :
    {Json A B : Type 0} → Outcome A × State Json → (A → Running Json B) → Outcome B × State Json
and_then (done a, s) f = f a s
and_then (failed e, s) f = (failed e, s)
and_then (aborted, s) f = (aborted, s)
and_then (panicked, s) f = (panicked, s)

infixl 5 ◌>>=◌ ◌>>◌
abbrev pub ◌>>=◌ : {Json A B : Type 0} → Running Json A → (A → Running Json B) → Running Json B
◌>>=◌ m f s = and_then (m s) f

abbrev pub ◌>>◌ : {Json A B : Type 0} → Running Json A → Running Json B → Running Json B
m >> k = m >>= λ _. k

abbrev pub pure : {Json A : Type 0} → A → Running Json A
pure a s = (done a, s)

abbrev pub fail : {Json A : Type 0} → RunLoopError → Running Json A
fail e s = (failed e, s)

abbrev pub stored :
    {Json A : Type 0} → State Json → Result StoreError A × Database → Outcome A × State Json
stored s (ok a, db) = (done a, record s { db = db })
stored s (err e, db) = (failed (store e), record s { db = db })

-- `expect` of a parent id.
abbrev pub of_option : {Json A : Type 0} → Option A → Running Json A
of_option none s = (panicked, s)
of_option (some a) s = (done a, s)

-- An operation of the store, and `?`.
unfoldable pub of_store : {Json A : Type 0} → Action A → Running Json A
of_store action s = stored s (action s.db)

abbrev pub tried :
    {Json A : Type 0}
    → State Json
    → Result StoreError A × Database
    → Outcome (Result StoreError A) × State Json
tried s (r, db) = (done r, record s { db = db })

-- An operation of the store whose error the caller looks at.
unfoldable pub try_store : {Json A : Type 0} → Action A → Running Json (Result StoreError A)
try_store action s = tried s (action s.db)

abbrev pub read_out : {A : Type 0} → Answer A → Outcome (Result Text A)
read_out (answered a) = done (ok a)
read_out (refused error) = done (err error)
read_out never = aborted

-- An answer to a call of the model.
unfoldable pub ask_model : {Json A : Type 0} → (ℕ → Answer A) → Running Json (Result Text A)
ask_model answer s = (read_out (answer s.model_calls), record s { model_calls = suc s.model_calls })

-- A later part of an answer that has begun.
unfoldable pub await : {Json A : Type 0} → Answer A → Running Json (Result Text A)
await answer s = (read_out answer, s)

unfoldable pub ask_tool : {Json A : Type 0} → (ℕ → A) → Running Json A
ask_tool answer s = (done (answer s.tool_calls), record s { tool_calls = suc s.tool_calls })

module _ {Json : Type 0} (context : RunLoopContext Json) where
  -- `now_millis`
  unfoldable pub now_millis : Running Json ℕ
  now_millis s = (done (context.clock s.clock_reads), record s { clock_reads = suc s.clock_reads })

  abbrev pub with_delta : AgentEventData Json → Text → Text
  with_delta (assistant_text_delta content) partial_output = partial_output ++ content
  with_delta _ partial_output = partial_output

  -- `SequencedAgentEventSink::emit`, then `PartialOutputEventSink::emit`, then the client's sink
  unfoldable pub send : AgentEvent Json → Running Json Unit
  send event s = (
    done tt,
    record s {
      events = s.events ++ record event { sequence = s.next_sequence } ∷ [];
      next_sequence = (s.next_sequence + 1) % 2 ^ 64;
      partial_output = with_delta event.payload s.partial_output;
    },
  )

  unfoldable pub emit : AgentEventId → AgentEventKind → AgentEventData Json → Running Json Unit
  emit id kind payload = do now ← now_millis; send (new_event id kind payload now)
