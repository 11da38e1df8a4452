-- ===== src/State/Model.antt =====
-- crates/jux-core/src/state/model.rs: the persisted data, and the texts that stand for its tags in
-- the database (crates/jux-core/src/state/store.rs). JSON values are a parameter; the time of an
-- operation is an argument.
use jux.Base.{
  ℕ, Bool, true, false, Text, codes, text_eq, List, Option, Result, ok, err, if◌then◌else◌,
}
use jux.Policy.Paths.{FilePath}
use jux.State.Ids.{WorkspaceId, SessionId, RunId, StepId}

pub record Workspace : Type 0 where
  pub id : WorkspaceId
  pub root : FilePath
  pub active_session_id : SessionId
  pub created_at : ℕ
  pub updated_at : ℕ

-- `Workspace::new`
abbrev pub new_workspace : FilePath → WorkspaceId → SessionId → ℕ → Workspace
new_workspace root id session now = record {
  id = id;
  root = root;
  active_session_id = session;
  created_at = now;
  updated_at = now;
}

pub record Session : Type 0 where
  pub id : SessionId
  pub name : Option Text
  pub liked : Bool
  pub archived : Bool
  pub created_at : ℕ
  pub updated_at : ℕ

-- `Session::new`
abbrev pub new_session : SessionId → Option Text → ℕ → Session
new_session id name now = record {
  id = id;
  name = name;
  liked = false;
  archived = false;
  created_at = now;
  updated_at = now;
}

pub data SessionContextKind : Type 0 where
  system_prompt tool_definition : SessionContextKind

pub data SessionContextPayload (Json : Type 0) : Type 0 where
  system_prompt : Text → SessionContextPayload Json
  tool_definition : Text → Text → Json → SessionContextPayload Json

pub record SessionContextItem (Json : Type 0) : Type 0 where
  pub session_id : SessionId
  pub sequence : ℕ
  pub kind : SessionContextKind
  pub payload : SessionContextPayload Json
  pub created_at : ℕ
  pub updated_at : ℕ

-- `SessionContextItem::new`
abbrev pub new_item :
    {Json : Type 0}
    → SessionId
    → ℕ
    → SessionContextKind
    → SessionContextPayload Json
    → ℕ
    → SessionContextItem Json
new_item session sequence kind payload now = record {
  session_id = session;
  sequence = sequence;
  kind = kind;
  payload = payload;
  created_at = now;
  updated_at = now;
}

pub data RunStatus : Type 0 where
  running waiting_for_human_input completed failed canceled : RunStatus

pub record Run : Type 0 where
  pub id : RunId
  pub request : Text
  pub status : RunStatus
  pub created_at : ℕ
  pub updated_at : ℕ

-- `Run::new`
abbrev pub new_run : RunId → Text → ℕ → Run
new_run id request now = record {
  id = id;
  request = request;
  status = running;
  created_at = now;
  updated_at = now;
}

-- `Run::set_status`
abbrev pub set_status : RunStatus → ℕ → Run → Run
set_status status now run = record run { status = status; updated_at = now }

pub data StepKind : Type 0 where
  user_message assistant_response assistant_output_checkpoint : StepKind
  tool_result skill_execution error : StepKind

pub record LlmUsage : Type 0 where
  pub input_tokens : ℕ
  pub output_tokens : ℕ
  pub total_tokens : ℕ
  pub cached_input_tokens : ℕ
  pub cache_creation_input_tokens : ℕ

-- `tool_call` has the id, the call id, the name and the arguments.
pub data AssistantResponseItem (Json : Type 0) : Type 0 where
  text : Text → AssistantResponseItem Json
  reasoning : Text → AssistantResponseItem Json
  tool_call : Text → Option Text → Text → Json → AssistantResponseItem Json

-- The fields stand in the order of the source.
pub data StepPayload (Json : Type 0) : Type 0 where
  user_message : Text → StepPayload Json
  assistant_response : Option Text → LlmUsage → List (AssistantResponseItem Json) → StepPayload Json
  assistant_output_checkpoint : Text → StepPayload Json
  tool_result : Text → Option Text → Json → StepPayload Json
  skills_requested : List Text → StepPayload Json
  skill_started : Text → Option Text → Text → Text → StepPayload Json
  skill_assistant_response :
      Text → Option Text → List (AssistantResponseItem Json) → StepPayload Json
  skill_tool_result : Text → Text → Option Text → Json → StepPayload Json
  error : Text → StepPayload Json

pub record Step (Json : Type 0) : Type 0 where
  pub id : StepId
  pub kind : StepKind
  pub payload : StepPayload Json
  pub created_at : ℕ
  pub updated_at : ℕ

-- `Step::new`
abbrev pub new_step : {Json : Type 0} → StepId → StepKind → StepPayload Json → ℕ → Step Json
new_step id kind payload now = record {
  id = id;
  kind = kind;
  payload = payload;
  created_at = now;
  updated_at = now;
}

abbrev pub visible_kind : StepKind → Bool
visible_kind StepKind.user_message = true
visible_kind StepKind.assistant_response = true
visible_kind StepKind.tool_result = true
visible_kind _ = false

-- `Step::visible_to_llm`
abbrev pub visible_to_llm : {Json : Type 0} → Step Json → Bool
visible_to_llm step = visible_kind step.kind

-- The parts of `StoreError` that the model can meet; `sqlite` stands for a refused statement, and
-- `conversion_failure` for the `Sqlite` error that holds the error of a row.
pub data StoreError : Type 0 where
  sqlite json invalid_status invalid_step_kind invalid_session_context_kind : Text → StoreError
  invalid_id missing_session missing_run : Text → StoreError
  missing_workspace : StoreError
  conversion_failure : StoreError → StoreError

abbrev pub to_sql_error : StoreError → StoreError
to_sql_error e = conversion_failure e

unfoldable pub encode_run_status : RunStatus → Text
encode_run_status running = codes "running"
encode_run_status waiting_for_human_input = codes "waiting_for_human_input"
encode_run_status completed = codes "completed"
encode_run_status failed = codes "failed"
encode_run_status canceled = codes "canceled"

unfoldable pub decode_run_status : Text → Result StoreError RunStatus
decode_run_status status =
    if text_eq status (codes "running")
    then ok running
    else if text_eq status (codes "waiting_for_human_input")
    then ok waiting_for_human_input
    else if text_eq status (codes "completed")
    then ok completed
    else if text_eq status (codes "failed")
    then ok failed
    else if text_eq status (codes "canceled")
    then ok canceled
    else err (invalid_status status)

unfoldable pub encode_step_kind : StepKind → Text
encode_step_kind StepKind.user_message = codes "user_message"
encode_step_kind StepKind.assistant_response = codes "assistant_response"
encode_step_kind StepKind.assistant_output_checkpoint = codes "assistant_output_checkpoint"
encode_step_kind StepKind.tool_result = codes "tool_result"
encode_step_kind skill_execution = codes "skill_execution"
encode_step_kind StepKind.error = codes "error"

unfoldable pub decode_step_kind : Text → Result StoreError StepKind
decode_step_kind kind =
    if text_eq kind (codes "user_message")
    then ok StepKind.user_message
    else if text_eq kind (codes "assistant_response")
    then ok StepKind.assistant_response
    else if text_eq kind (codes "assistant_output_checkpoint")
    then ok StepKind.assistant_output_checkpoint
    else if text_eq kind (codes "tool_result")
    then ok StepKind.tool_result
    else if text_eq kind (codes "skill_execution")
    then ok skill_execution
    else if text_eq kind (codes "error")
    then ok StepKind.error
    else err (invalid_step_kind kind)

unfoldable pub encode_session_context_kind : SessionContextKind → Text
encode_session_context_kind SessionContextKind.system_prompt = codes "system_prompt"
encode_session_context_kind SessionContextKind.tool_definition = codes "tool_definition"

unfoldable pub decode_session_context_kind : Text → Result StoreError SessionContextKind
decode_session_context_kind kind =
    if text_eq kind (codes "system_prompt")
    then ok SessionContextKind.system_prompt
    else if text_eq kind (codes "tool_definition")
    then ok SessionContextKind.tool_definition
    else err (invalid_session_context_kind kind)
