-- ===== src/Agent/Tools.antt =====
-- crates/jux-core/src/main_loop/mod.rs: one tool call of a turn.
use jux.Base.{
  ℕ, not, Text, codes, text_eq, List, [], ◌∷◌, map, Option, none, some, Result, ok, err,
  if◌then◌else◌,
}
use jux.State.Model.{Run, StepKind, StepPayload, AssistantResponseItem}
use jux.Agent.Values.{Values, failure}
use jux.Agent.Event.{
  AgentEventId, AgentEventKind, AgentEventData, tool_event, ToolOutputStream, stdout, stderr,
  tool_started, tool_output, tool_output_chunk, tool_completed, tool_failed,
}
use jux.Agent.Messages.{call_skill_tool_name}
use jux.Agent.Monad.{RunLoopContext, Running, ◌>>=◌, ◌>>◌, pure, ask_tool, emit}
use jux.Agent.Ending.{append}
use jux.Agent.HumanInput.{ToolCallRequest, from_assistant_item}
use jux.Agent.Utf8.{as_bytes, chunks, from_utf8_lossy}
use jux.Agent.Subflow.{SkillSubflowOutcome, execute_skill_call}

pub data ToolCallOutcome : Type 0 where
  completed waiting_for_human_input : ToolCallOutcome

module _ (values : Values) (context : RunLoopContext values.Json) where
  open values use {Json, text_at}

  unfoldable pub emit_all :
      AgentEventId → AgentEventKind → List (AgentEventData Json) → Running Json Unit
  emit_all id kind [] = pure tt
  emit_all id kind (payload ∷ payloads) = do emit context id kind payload; emit_all id kind payloads

  abbrev pub chunk_texts : Option Text → List Text
  chunk_texts none = []
  chunk_texts (some content) = map from_utf8_lossy (chunks 4096 (as_bytes content))

  abbrev pub emit_stream :
      ToolCallRequest Json → AgentEventId → Json → Text → ToolOutputStream → Running Json Unit
  emit_stream call id output field stream = emit_all id AgentEventKind.output (
      map (λ content. tool_output_chunk call.name stream content)
        (chunk_texts (text_at field output)))

  abbrev pub emit_streams : ToolCallRequest Json → AgentEventId → Json → Running Json Unit
  emit_streams call id output = do
    emit_stream call id output (codes "stdout") stdout
    emit_stream call id output (codes "stderr") stderr

  unfoldable pub emit_tool_output_chunks :
      ToolCallRequest Json → AgentEventId → Json → Running Json Unit
  emit_tool_output_chunks call id output =
      if not (text_eq call.name (codes "exec")) then pure tt else emit_streams call id output

  unfoldable pub record_tool_output : ToolCallRequest Json → AgentEventId → Json → Running Json Json
  record_tool_output call id output = do
    emit_tool_output_chunks call id output
    emit context id AgentEventKind.output (tool_output call.name output)
    emit context id AgentEventKind.completed (tool_completed call.name call.call_id)
    pure output

  unfoldable pub record_tool_failure :
      ToolCallRequest Json → AgentEventId → Text → Running Json Json
  record_tool_failure call id error = do
    emit context id AgentEventKind.failed (tool_failed call.name call.call_id error)
    pure (failure values error)

  abbrev pub recorded : ToolCallRequest Json → AgentEventId → Result Text Json → Running Json Json
  recorded call id (ok output) = record_tool_output call id output
  recorded call id (err error) = record_tool_failure call id error

  unfoldable pub execute_tool_content : ToolCallRequest Json → AgentEventId → Running Json Json
  execute_tool_content call id = do
    result ← ask_tool (λ n. context.execute_tool n call.name call.arguments)
    recorded call id result

  unfoldable pub append_tool_result : Run → Text → Option Text → Json → Running Json Unit
  append_tool_result run id call_id content =
      append context run.id StepKind.tool_result (StepPayload.tool_result id call_id content)

  -- The end of `execute_tool_call`, with the content of the result.
  abbrev pub conclude : Run → ToolCallRequest Json → Json → Running Json ToolCallOutcome
  conclude run call content = do append_tool_result run call.id call.call_id content; pure completed

  abbrev pub conclude_skill :
      Run
      → ToolCallRequest Json
      → AgentEventId
      → Result Text (SkillSubflowOutcome Json)
      → Running Json ToolCallOutcome
  conclude_skill run call id (ok (SkillSubflowOutcome.completed output)) =
      record_tool_output call id output >>= conclude run call
  conclude_skill run call id (ok SkillSubflowOutcome.waiting_for_human_input) =
      pure waiting_for_human_input
  conclude_skill run call id (err error) = record_tool_failure call id error >>= conclude run call

  abbrev pub call_skill : Run → ToolCallRequest Json → AgentEventId → Running Json ToolCallOutcome
  call_skill run call id = execute_skill_call values context run call >>= conclude_skill run call id

  abbrev pub call_tool : Run → ToolCallRequest Json → AgentEventId → Running Json ToolCallOutcome
  call_tool run call id = execute_tool_content call id >>= conclude run call

  unfoldable pub run_tool_call : Run → ℕ → ℕ → ToolCallRequest Json → Running Json ToolCallOutcome
  run_tool_call run iteration tool call = do
    emit context (tool_event iteration call.name tool) AgentEventKind.started
        (tool_started call.name call.call_id call.arguments)
    if text_eq call.name call_skill_tool_name
        then call_skill run call (tool_event iteration call.name tool)
        else call_tool run call (tool_event iteration call.name tool)

  abbrev pub run_if_call :
      Run → ℕ → ℕ → Option (ToolCallRequest Json) → Running Json ToolCallOutcome
  run_if_call run iteration tool none = pure completed
  run_if_call run iteration tool (some call) = run_tool_call run iteration tool call

  unfoldable pub execute_tool_call :
      Run → ℕ → ℕ → AssistantResponseItem Json → Running Json ToolCallOutcome
  execute_tool_call run iteration tool call =
      run_if_call run iteration tool (from_assistant_item call)
