-- ===== src/Agent/Ending.antt =====
-- crates/jux-core/src/main_loop/mod.rs: steps, events and the ways that a run ends.
use jux.Base.{ℕ, Text, Option, none, some, List}
use jux.State.Ids.{RunId, parent}
use jux.State.Model.{
  Workspace, Session, Run, RunStatus, StepKind, StepPayload, Step, AssistantResponseItem, LlmUsage,
}
use jux.State.Sessions.{load_workspace, load_session}
use jux.State.Runs.{update_run_status}
use jux.State.Steps.{append_step, load_run_steps}
use jux.Agent.Event.{
  AgentEventKind, run_event, iteration_event, llm_event, iteration_started, iteration_completed,
  llm_failed, run_started, run_completed, run_failed,
}
use jux.Agent.Monad.{
  RunLoopContext, prompt, runtime, Running, ◌>>=◌, ◌>>◌, pure, fail, of_option, of_store,
  now_millis, emit,
}

pub record RunLoopOutput (Json : Type 0) : Type 0 where
  pub workspace : Workspace
  pub session : Session
  pub run : Run
  pub steps : List (Step Json)
  pub answer : Option Text

module _ {Json : Type 0} (context : RunLoopContext Json) where
  unfoldable pub append : RunId → StepKind → StepPayload Json → Running Json Unit
  append run kind payload = do
    now ← now_millis context
    of_store (append_step context.step_codec run kind payload now)
    pure tt

  unfoldable pub set_run_status : RunId → RunStatus → Running Json Run
  set_run_status run status = do
    now ← now_millis context
    of_store (update_run_status run status now)

  unfoldable pub emit_iteration_started : ℕ → Running Json Unit
  emit_iteration_started index =
      emit context (iteration_event index) AgentEventKind.started (iteration_started index)

  unfoldable pub emit_iteration_completed : ℕ → Running Json Unit
  emit_iteration_completed index =
      emit context (iteration_event index) AgentEventKind.completed (iteration_completed index)

  unfoldable pub emit_run_started : Text → Running Json Unit
  emit_run_started request = emit context run_event AgentEventKind.started (run_started request)

  unfoldable pub emit_run_failed : Text → Running Json Unit
  emit_run_failed error = emit context run_event AgentEventKind.failed (run_failed error)

  unfoldable pub record_assistant_response :
      Run → Option Text → LlmUsage → List (AssistantResponseItem Json) → Running Json Unit
  record_assistant_response run message_id usage items =
      append run.id StepKind.assistant_response
        (StepPayload.assistant_response message_id usage items)

  -- What `wait_for_human_input` and `complete_run` read of the store.
  unfoldable pub read_output : Run → Option Text → Running Json (RunLoopOutput Json)
  read_output run answer = do
    workspace ← of_store load_workspace
    session_id ← of_option (parent run.id)
    session ← of_store (load_session session_id)
    steps ← of_store (load_run_steps context.step_codec run.id)
    pure (record {
      workspace = workspace;
      session = session;
      run = run;
      steps = steps;
      answer = answer;
    })

  unfoldable pub wait_for_human_input : Run → Running Json (RunLoopOutput Json)
  wait_for_human_input run = do
    waiting ← set_run_status run.id RunStatus.waiting_for_human_input
    read_output waiting none

  unfoldable pub complete_run : Run → Text → Running Json (RunLoopOutput Json)
  complete_run run answer = do
    completed ← set_run_status run.id RunStatus.completed
    output ← read_output completed (some answer)
    emit context run_event AgentEventKind.completed (run_completed answer)
    pure output

  unfoldable pub fail_completion_call : {A : Type 0} → Run → Text → ℕ → Running Json A
  fail_completion_call run error index = do
    emit context (llm_event index 1) AgentEventKind.failed (llm_failed error)
    append run.id StepKind.error (StepPayload.error error)
    failed_run ← set_run_status run.id RunStatus.failed
    emit_run_failed error
    fail (prompt failed_run error)

  unfoldable pub fail_runtime : {A : Type 0} → Run → Text → Running Json A
  fail_runtime run message = do
    append run.id StepKind.error (StepPayload.error message)
    failed_run ← set_run_status run.id RunStatus.failed
    emit_run_failed message
    fail (runtime failed_run message)
